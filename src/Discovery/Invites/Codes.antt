-- ===== src/Discovery/Invites/Codes.antt =====
-- The invite codes of `invite_create` (src/discovery.rs).
use naleystogramm_server.Base.{
  ℕ, zero, suc, ◌*◌, ◌/◌, ◌%◌, ◌^◌, ◌<◌, ◌≡◌, refl, ◌∙◌, sym, ap, Bool, true, ◌&&◌, [], ◌∷◌, Text,
  arith, ◌==◌, ==_iff, contains_char, if◌then◌else◌,
}
use naleystogramm_server.Discovery.Invites.{chars, char_at, char_of, part, invite_code}

-- A character's place in `chars`.
index_of : ℕ → Text → ℕ
index_of c [] = 0
index_of c (d ∷ s) = let rest = index_of c s in if c == d then 0 else suc rest

all_below : ℕ → (ℕ → Bool) → Bool
all_below zero p = true
all_below (suc n) p = p n && all_below n p

all_below_sound : (n : ℕ) (p : ℕ → Bool) (i : ℕ) → all_below n p ≡ true → i < n → p i ≡ true
unfolding all_below
all_below_sound zero p i h lt = absurd (omega arith)
all_below_sound (suc n) p i h lt = ground (arith, all_below_sound n p i)

index_table : all_below 32 (λ i. index_of (char_at chars i) chars == i) ≡ true
unfolding all_below index_of
index_table = refl

index_of-char_at : (i : ℕ) → i < 32 → index_of (char_at chars i) chars ≡ i
index_of-char_at i h = (==_iff _ i).0 (all_below_sound 32 _ i index_table h)

-- The bits that a character is made of can be read off it.
index_of-char_of : (n i : ℕ) → index_of (char_of n i) chars ≡ n / 2 ^ (i * 5) % 32
unfolding char_of
index_of-char_of n i = index_of-char_at (n / 2 ^ (i * 5) % 32 % 32) (omega arith) ∙ omega arith

-- Four characters are the 20 lowest bits.
low_bits :
    (n m : ℕ)
    → n / 2 ^ (0 * 5) % 32 ≡ m / 2 ^ (0 * 5) % 32
    → n / 2 ^ (1 * 5) % 32 ≡ m / 2 ^ (1 * 5) % 32
    → n / 2 ^ (2 * 5) % 32 ≡ m / 2 ^ (2 * 5) % 32
    → n / 2 ^ (3 * 5) % 32 ≡ m / 2 ^ (3 * 5) % 32
    → n % 2 ^ 16 ≡ m % 2 ^ 16
low_bits n m a b c d = omega arith

same_bits : (n m i : ℕ) → char_of n i ≡ char_of m i → n / 2 ^ (i * 5) % 32 ≡ m / 2 ^ (i * 5) % 32
same_bits n m i e = sym (index_of-char_of n i) ∙ ap (λ c. index_of c chars) e ∙ index_of-char_of m i

part-injective : (n m : ℕ) → part n ≡ part m → n % 2 ^ 16 ≡ m % 2 ^ 16
unfolding part
part-injective n m e =
    low_bits n m (same_bits n m 0 (ap (λ s. char_at s 0) e))
      (same_bits n m 1 (ap (λ s. char_at s 1) e)) (same_bits n m 2 (ap (λ s. char_at s 2) e))
      (same_bits n m 3 (ap (λ s. char_at s 3) e))

-- The parts of a code.
abbrev first_part : Text → Text
first_part s = char_at s 0 ∷ char_at s 1 ∷ char_at s 2 ∷ char_at s 3 ∷ []

abbrev second_part : Text → Text
second_part s = char_at s 5 ∷ char_at s 6 ∷ char_at s 7 ∷ char_at s 8 ∷ []

-- Different random `u32`s have different codes.
pub invite_code-injective :
    (r q : ℕ) → r < 2 ^ 32 → q < 2 ^ 32 → invite_code r ≡ invite_code q → r ≡ q
unfolding invite_code
invite_code-injective r q r_fits q_fits e =
    let low = part-injective r q (ap first_part e) in
    let high = part-injective (r / 2 ^ 16) (q / 2 ^ 16) (ap second_part e) in omega arith

contains_table : all_below 32 (λ i. contains_char (char_at chars i) chars) ≡ true
unfolding all_below contains_char
contains_table = refl

char_of-chars : (n i : ℕ) → contains_char (char_of n i) chars ≡ true
unfolding char_of
char_of-chars n i =
    all_below_sound 32 (λ j. contains_char (char_at chars j) chars) (n / 2 ^ (i * 5) % 32 % 32)
      contains_table (omega arith)
