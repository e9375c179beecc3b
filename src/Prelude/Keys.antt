-- ===== src/Prelude/Keys.antt =====
-- Equality tests on the keys of dictionaries, as an interface.
use Prim.Native.String.{String}
use mathlib.Core.Path.{◌≡◌, refl}
use mathlib.Core.Logic.{◌↔◌}
use mathlib.Core.Bool.{Bool, true, ◌&&◌}
use native.Mathlib.Omega.{arith}
use text.Mathlib.Text.{◌==◌ as str_beq}
use text.Mathlib.TextEquality.{eq_iff}

-- A type of keys with the test that a dictionary compares them by.
pub record KeyTest {ℓ} (K : Type ℓ) : Type ℓ where
  pub same_key : K → K → Bool
  pub same_key_iff : (j k : K) → (same_key j k ≡ true) ↔ (j ≡ k)

abbrev pub str_eq : String → String → Bool
str_eq a b = str_beq a b

pub str_eq_iff : (a b : String) → (str_eq a b ≡ true) ↔ (a ≡ b)
str_eq_iff = eq_iff

pub str_eq_refl : (a : String) → str_eq a a ≡ true
str_eq_refl a = (eq_iff a a).1 refl

instance abbrev pub string_eq : KeyTest String
string_eq = record { same_key = str_beq; same_key_iff = eq_iff }

abbrev pub pair_beq {ℓ κ} :
    {A : Type ℓ} {B : Type κ} → (A → A → Bool) → (B → B → Bool) → A × B → A × B → Bool
pair_beq p q (a, b) (c, d) = p a c && q b d

pub key_beq_iff : (a b : String × String) → (pair_beq str_beq str_beq a b ≡ true) ↔ (a ≡ b)
key_beq_iff (a, b) (c, d) = ground (arith, eq_iff a c, eq_iff b d)

instance abbrev pub pair_eq : KeyTest (String × String)
pair_eq = record { same_key = pair_beq str_beq str_beq; same_key_iff = key_beq_iff }

abbrev pub triple_beq : String × String × String → String × String × String → Bool
triple_beq (a, b, c) (d, e, f) = str_beq a d && (str_beq b e && str_beq c f)

pub triple_beq_iff : (a b : String × String × String) → (triple_beq a b ≡ true) ↔ (a ≡ b)
triple_beq_iff (a, b, c) (d, e, f) = ground (arith, eq_iff a d, eq_iff b e, eq_iff c f)

instance abbrev pub triple_eq : KeyTest (String × String × String)
triple_eq = record { same_key = triple_beq; same_key_iff = triple_beq_iff }
