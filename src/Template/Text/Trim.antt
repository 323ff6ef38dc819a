-- ===== src/Template/Text/Trim.antt =====
-- `strings.TrimSpace`, as dbx/sqltmplx uses it: trimming twice.
use arcgo.Prelude.{ℕ, ◌≡◌, refl, true, false, [], ◌∷◌, is_nil, Bool-cases, inl, inr}
use arcgo.Template.Text.{Str, is_space, trim_left, trim_right, trim_space}

pub trim_right_idem : (s : Str) → trim_right (trim_right s) ≡ trim_right s
unfolding trim_right
trim_right_idem [] = refl
trim_right_idem (c ∷ s) = elim (Bool-cases (is_nil (trim_right s))) [
  | inl e ↦ elim (Bool-cases (is_space c)) [
    | inl h ↦ rw (e, h) refl
    | inr h ↦ rw (e, h) (rw (trim_right_idem s, e, h) refl)
  ]
  | inr e ↦ rw e (rw (trim_right_idem s, e) refl)
]

-- Text that trims to nothing has only spaces.
pub trim_right_nil : (s : Str) → trim_space s ≡ [] → trim_right s ≡ []
unfolding trim_left trim_right
trim_right_nil [] h = refl
trim_right_nil (c ∷ s) h = elim (Bool-cases (is_space c)) [
  | inl e ↦ rw (trim_right_nil s (rw e at h), e) refl
  | inr e ↦ rw e at h
]

kept_left : (c : ℕ) (s : Str) → is_space c ≡ false → trim_left (c ∷ s) ≡ c ∷ s
unfolding trim_left
kept_left c s e = rw e refl

kept_right : (c : ℕ) (s : Str) → is_space c ≡ false → trim_right (c ∷ s) ≡ c ∷ trim_right s
unfolding trim_right
kept_right c s e = elim (Bool-cases (is_nil (trim_right s))) [
  | inl n ↦ rw (n, e) refl
  | inr n ↦ rw n refl
]

trim_kept :
    (c : ℕ) (s : Str) → is_space c ≡ false → trim_space (trim_space (c ∷ s)) ≡ trim_space (c ∷ s)
trim_kept c s e =
    rw
      (
        kept_left c s e,
        kept_right c s e,
        kept_left c (trim_right s) e,
        kept_right c (trim_right s) e,
        trim_right_idem s,
      )
      refl

trim_past : (c : ℕ) (s : Str) → is_space c ≡ true → trim_left (c ∷ s) ≡ trim_left s
unfolding trim_left
trim_past c s e = rw e refl

pub trim_space_idem : (s : Str) → trim_space (trim_space s) ≡ trim_space s
trim_space_idem [] = unfold trim_left trim_right in refl
trim_space_idem (c ∷ s) = elim (Bool-cases (is_space c)) [
  | inl e ↦ rw (trim_past c s e) (trim_space_idem s)
  | inr e ↦ trim_kept c s e
]
