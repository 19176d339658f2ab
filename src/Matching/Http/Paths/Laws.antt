-- ===== src/Matching/Http/Paths/Laws.antt =====
-- What the buckets say of the paths that match.
use logiclens.Shared.{String, true, false, List, [], ◌∷◌, ◌≡◌, refl, ◌⊎◌, inl, arith, eq_iff, any}
use logiclens.Matching.Http.Paths.{
  split_path, is_template_segment, bucket_of, bucket_key, segments_compatible, segments_fit,
  paths_compatible, static_fits_template, first_is_template, has_templates,
}

-- A search by buckets meets two paths: they share a bucket, or one is in that of the templates.
abbrev pub MeetsOf : String → String → Type 0
MeetsOf a b = (a ≡ b) ⊎ ((a ≡ "*") ⊎ (b ≡ "*"))

compatible_meets :
    (as' bs : List String)
    → segments_compatible as' bs ≡ true
    → MeetsOf (bucket_of as') (bucket_of bs)
unfolding segments_compatible bucket_of
compatible_meets [] [] h = inl refl
compatible_meets [] (b ∷ bs) h = cc
compatible_meets (a ∷ as') [] h = cc
compatible_meets (a ∷ as') (b ∷ bs) h = ground (arith, eq_iff a b)

fit_compatible :
    (as' bs : List String) → segments_fit as' bs ≡ true → segments_compatible as' bs ≡ true
unfolding segments_fit segments_compatible
fit_compatible [] [] h = refl
fit_compatible [] (b ∷ bs) h = h
fit_compatible (a ∷ as') [] h = h
fit_compatible (a ∷ as') (b ∷ bs) h = ground (arith, fit_compatible as' bs)

pub compatible-meets :
    (a b : String) → paths_compatible a b ≡ true → MeetsOf (bucket_key a) (bucket_key b)
unfolding paths_compatible bucket_key
compatible-meets a b h = compatible_meets (split_path a) (split_path b) (ground arith)

pub static-compatible :
    (a b : String) → static_fits_template a b ≡ true → paths_compatible a b ≡ true
unfolding paths_compatible static_fits_template
static-compatible a b h = ground (arith, fit_compatible (split_path a) (split_path b))

segments_compatible_symm :
    (as' bs : List String) → segments_compatible as' bs ≡ segments_compatible bs as'
unfolding segments_compatible
segments_compatible_symm [] [] = refl
segments_compatible_symm [] (b ∷ bs) = refl
segments_compatible_symm (a ∷ as') [] = refl
segments_compatible_symm (a ∷ as') (b ∷ bs) =
    ground (arith, segments_compatible_symm as' bs, eq_iff a b, eq_iff b a)

pub compatible_symm : (a b : String) → paths_compatible a b ≡ paths_compatible b a
unfolding paths_compatible
compatible_symm a b = ground (arith, segments_compatible_symm (split_path a) (split_path b))

static_segments :
    (as' bs : List String)
    → any is_template_segment as' ≡ false
    → segments_compatible as' bs ≡ true
    → segments_fit as' bs ≡ true
unfolding segments_fit segments_compatible
static_segments [] [] n h = refl
static_segments [] (b ∷ bs) n h = h
static_segments (a ∷ as') [] n h = h
static_segments (a ∷ as') (b ∷ bs) n h = ground (arith, static_segments as' bs)

-- A path without templates that is compatible with a pattern fits it.
pub compatible-static :
    (a b : String)
    → has_templates a ≡ false
    → paths_compatible a b ≡ true
    → static_fits_template a b ≡ true
unfolding paths_compatible static_fits_template has_templates
compatible-static a b n h = ground (arith, static_segments (split_path a) (split_path b))

first_of :
    (segments : List String)
    → any is_template_segment segments ≡ false
    → elim segments [ [] ↦ false | first ∷ _ ↦ is_template_segment first ] ≡ false
first_of [] n = refl
first_of (s ∷ segments) n = ground arith

pub first-templates : (p : String) → has_templates p ≡ false → first_is_template p ≡ false
unfolding has_templates first_is_template
first-templates p n = first_of (split_path p) n
