-- ===== src/Prelude/Text.antt =====
-- `std::string` as the list of its bytes, with the tests and cuts that the program makes.
use Prim.Native.Nat.{ℕ}
use Prim.Native.Char.{code}
use Prim.Native.String.{String}
use mathlib.Core.Path.{◌≡◌, refl}
use mathlib.Core.Logic.{◌≢◌, ◌↔◌, inl, inr}
use mathlib.Core.Bool.{Bool, true, false, ◌&&◌}
use mathlib.Core.List.{List, [], ◌∷◌, ◌++◌}
use native.Mathlib.Omega.{arith}
use intrinsic_moveit.Prelude.Tests.{◌==◌, if◌then◌else◌, Bool-cases}
use intrinsic_moveit.Prelude.Lists.{drop, length, any, is_empty}

abbrev pub Str : Type 0
Str = List ℕ

-- The bytes of an ASCII literal. It stays shut in proofs, so that a literal reads as itself.
unfoldable pub codes : String → Str
codes String.[] = []
codes (String.◌∷◌ c s) = code c ∷ codes s

unfoldable pub str_eq : Str → Str → Bool
str_eq [] [] = true
str_eq [] (y ∷ t) = false
str_eq (x ∷ s) [] = false
str_eq (x ∷ s) (y ∷ t) = x == y && str_eq s t

-- `s.empty() ? default : s`
abbrev pub text_or_default : Str → Str → Str
text_or_default s default = if is_empty s then default else s

pub text_or_default-ne : (s default : Str) → default ≢ [] → text_or_default s default ≢ []
text_or_default-ne [] default h = h
text_or_default-ne (c ∷ s) default h = λ e. absurd (cc)

pub str_eq_refl : (s : Str) → str_eq s s ≡ true
unfolding str_eq
str_eq_refl [] = refl
str_eq_refl (x ∷ s) = ground (arith, str_eq_refl s)

pub eq_of_str_eq : (s t : Str) → str_eq s t ≡ true → s ≡ t
unfolding str_eq
eq_of_str_eq [] [] h = refl
eq_of_str_eq [] (y ∷ t) h = absurd (cc)
eq_of_str_eq (x ∷ s) [] h = absurd (cc)
eq_of_str_eq (x ∷ s) (y ∷ t) h = ground (arith, eq_of_str_eq s t)

pub str_eq_iff : (s t : Str) → (str_eq s t ≡ true) ↔ (s ≡ t)
str_eq_iff s t = (eq_of_str_eq s t, λ e. rw e (str_eq_refl t))

-- `contains` of a set or a list of texts.
unfoldable pub mem_str : Str → List Str → Bool
mem_str s = any (str_eq s)

-- `s.rfind(prefix, 0) == 0`, absl::StartsWith(s, prefix).
unfoldable pub starts_with : Str → Str → Bool
starts_with s [] = true
starts_with [] (y ∷ t) = false
starts_with (x ∷ s) (y ∷ t) = x == y && starts_with s t

pub starts_with-append : (p t : Str) → starts_with (p ++ t) p ≡ true
unfolding starts_with
starts_with-append [] t = refl
starts_with-append (x ∷ p) t = ground (arith, starts_with-append p t)

pub starts_with-split : (s p : Str) → starts_with s p ≡ true → s ≡ p ++ drop (length p) s
unfolding starts_with
starts_with-split s [] h = refl
starts_with-split [] (y ∷ t) h = absurd (cc)
starts_with-split (x ∷ s) (y ∷ t) h = ground (arith, starts_with-split s t)

-- `s.substr(0, s.find(c))`: all of `s` if `c` does not occur.
unfoldable pub take_until : ℕ → Str → Str
take_until c [] = []
take_until c (x ∷ s) = if x == c then [] else x ∷ take_until c s

-- The last part of absl::StrSplit(s, c).
last_part_from : ℕ → Str → Str → Str
last_part_from c part [] = part
last_part_from c part (x ∷ s) = last_part_from c (if x == c then [] else part ++ (x ∷ [])) s

unfoldable pub last_part : ℕ → Str → Str
unfolding last_part_from
last_part c s = last_part_from c [] s

abbrev pub slash : ℕ
slash = b'/'

abbrev pub has_byte : ℕ → Str → Bool
has_byte c = any (λ x. x == c)

pub has_byte-take_until : (c : ℕ) (s : Str) → has_byte c (take_until c s) ≡ false
unfolding take_until
has_byte-take_until c [] = refl
has_byte-take_until c (x ∷ s) = ground (arith, has_byte-take_until c s)

pub has_byte-append_right : (c : ℕ) (s t : Str) → has_byte c t ≡ true → has_byte c (s ++ t) ≡ true
has_byte-append_right c [] t h = h
has_byte-append_right c (x ∷ s) t h = ground (arith, has_byte-append_right c s t h)

last_part_from-has_byte :
    (c : ℕ) (part s : Str) → has_byte c part ≡ false → has_byte c (last_part_from c part s) ≡ false
unfolding last_part_from
last_part_from-has_byte c part [] h = h
last_part_from-has_byte c part (x ∷ s) h = elim (Bool-cases (x == c)) [
  | inl e ↦ rw e (last_part_from-has_byte c [] s refl)
  | inr e ↦ rw e (last_part_from-has_byte c (part ++ (x ∷ [])) s (snoc part h e))
]
  where
    snoc : (p : Str) → has_byte c p ≡ false → (x == c) ≡ false → has_byte c (p ++ (x ∷ [])) ≡ false
    snoc [] h e = rw e
    snoc (y ∷ p) h e = ground (arith, snoc p)

pub last_part-has_byte : (c : ℕ) (s : Str) → has_byte c (last_part c s) ≡ false
unfolding last_part
last_part-has_byte c s = last_part_from-has_byte c [] s refl
