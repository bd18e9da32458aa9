-- ===== src/Error/Codes.antt =====
-- The translation of status codes in src/error.rs, there and back.
use nosv.Base.{◌≡◌, ◌≢◌, refl, sym, List, [], ◌∷◌, All, Bool-cases, inl, inr, if◌then◌else◌}
use nosv.Base.Int.{ℤ, eq_ℤ, eq_ℤ_iff}
use nosv.Base.Result.{Result, ok, err}
use nosv.Error.{NativeError, NosvSys, from_code, code, invalid_callback, unknown}

-- The status code that a translated result stands for.
abbrev pub status : NosvSys → Result (Unit {0}) NativeError → ℤ
status sys (ok _) = sys.success
status sys (err e) = code sys e

status-if :
    (sys : NosvSys) (c k : ℤ) (x y : Result (Unit {0}) NativeError)
    → status sys x ≡ k
    → status sys y ≡ c
    → status sys (if eq_ℤ c k then x else y) ≡ c
status-if sys c k x y hx hy = elim (Bool-cases (eq_ℤ c k)) [
  | inl e ↦ rw e (rw hx (sym ((eq_ℤ_iff c k).0 e)))
  | inr e ↦ rw e hy
]

-- No status code is lost: the translated result stands for the very code that came in.
pub status-from_code : (sys : NosvSys) (c : ℤ) → status sys (from_code sys c) ≡ c
unfolding from_code code
status-from_code sys c = search status-if depth 14

if-miss : {A : Type 0} (c k : ℤ) (x y z : A) → c ≢ k → y ≡ z → (if eq_ℤ c k then x else y) ≡ z
if-miss c k x y z h e = elim (Bool-cases (eq_ℤ c k)) [
  | inl hit ↦ absurd (h ((eq_ℤ_iff c k).0 hit))
  | inr miss ↦ rw miss e
]

if-hit : {A : Type 0} (c : ℤ) (x y : A) → (if eq_ℤ c c then x else y) ≡ x
if-hit c x y = rw ((eq_ℤ_iff c c).1 refl)

-- The constants of the C header are pairwise different.
abbrev pub IsDistinct : List ℤ → Type 0
IsDistinct [] = Unit
IsDistinct (x ∷ xs) = All (λ y. y ≢ x) xs × IsDistinct xs

abbrev pub constants : NosvSys → List ℤ
constants sys =
    sys.success ∷ sys.err_invalid_callback ∷ sys.err_invalid_metadata_size
    ∷ sys.err_invalid_operation ∷ sys.err_invalid_parameter ∷ sys.err_not_initialized
    ∷ sys.err_out_of_memory ∷ sys.err_outside_task ∷ sys.err_busy ∷ sys.err_timeout ∷ []

-- An error that `from_code` can make: a known one, or the code of none of the constants.
abbrev pub IsCanonical : NosvSys → NativeError → Type 0
IsCanonical sys (unknown c) = All (λ k. c ≢ k) (constants sys)
IsCanonical sys e = Unit

pub from_code-code :
    (sys : NosvSys) (e : NativeError)
    → IsDistinct (constants sys)
    → IsCanonical sys e
    → from_code sys (code sys e) ≡ err e
unfolding from_code code
from_code-code sys invalid_callback d k = search (if-miss, if-hit) depth 14
from_code-code sys e d k = search (if-miss, if-hit) depth 14
