-- ===== src/Webhook/Errors.antt =====
-- What the webhooks share: the list of field errors that a check fills.
use kube_combo.Prelude.{String, ◌≡◌, ◌↔◌, Bool, true, false, ◌&&◌, Option, none, some, List, []}
use kube_combo.Prelude.{◌∷◌, ◌++◌, arith, ◌!=◌, bool_eq, nat_eq, string_eq, option_eq, list_eq}

-- `field.Invalid(path, value, detail)`
pub record FieldError : Type 0 where
  pub path : String
  pub value : String
  pub detail : String

abbrev pub invalid : String → String → String → FieldError
invalid path value detail = record { path = path; value = value; detail = detail }

-- `if test { allErrs = append(allErrs, e) }`, as the part that is appended.
unfoldable pub report : Bool → FieldError → List FieldError
report true e = e ∷ []
report false e = []

-- `nil` if there is no error, else the aggregate of the errors.
unfoldable pub aggregate : List FieldError → Option (List FieldError)
aggregate [] = none
aggregate (e ∷ es) = some (e ∷ es)

pub report-eq-nil : (b : Bool) (e : FieldError) → (report b e ≡ []) ↔ (b ≡ false)
unfolding report
report-eq-nil b e = ground arith

pub aggregate-eq-none : (es : List FieldError) → (aggregate es ≡ none) ↔ (es ≡ [])
unfolding aggregate
aggregate-eq-none [] = ground arith
aggregate-eq-none (e ∷ es) = ground arith

pub append-eq-nil : (xs ys : List FieldError) → (xs ++ ys ≡ []) ↔ ((xs ≡ []) × (ys ≡ []))
append-eq-nil [] ys = ground arith
append-eq-nil (x ∷ xs) ys = ground arith

-- A report in front of others adds nothing exactly when its test fails.
pub report-append-eq-nil :
    (b : Bool) (e : FieldError) (es : List FieldError)
    → (report b e ++ es ≡ []) ↔ ((b ≡ false) × (es ≡ []))
unfolding report
report-append-eq-nil true e es = ground arith
report-append-eq-nil false e es = ground arith

-- The test of the immutable fields: the old value is set, and the new one differs.
abbrev pub replaced : String → String → Bool
replaced old new = old != "" && old != new
