-- ===== src/Logs/Abi.antt =====
-- The data of a log as a contract encodes it: words of 32 bytes, the highest byte first.
use mathlib.Core.List.{append-nil}
use explorer_api_gql.Base.{
  ℕ, zero, suc, ◌+◌, ◌*◌, ◌/◌, ◌%◌, ◌^◌, ◌<◌, ◌≡◌, refl, sym, ap, ◌∙◌, List, [], ◌∷◌, ◌++◌, arith,
  length, length-append, take, drop, take_append,
}
use native.Mathlib.Omega.{pow_step}
use explorer_api_gql.Logs.Effects.{set_bytes, set_bytes_from}

-- the last `k` bytes of a number
pub bytes_of : ℕ → ℕ → List ℕ
bytes_of zero n = []
bytes_of (suc k) n = bytes_of k (n / 256) ++ n % 256 ∷ []

abbrev pub word_of : ℕ → List ℕ
word_of n = bytes_of 32 n

length-bytes_of : (k n : ℕ) → length (bytes_of k n) ≡ k
unfolding bytes_of
length-bytes_of zero n = refl
length-bytes_of (suc k) n =
    length-append (bytes_of k (n / 256)) (n % 256 ∷ [])
    ∙ ap (λ l. l + 1) (length-bytes_of k (n / 256))
    ∙ omega arith

set_bytes-snoc :
    (m : ℕ) (xs : List ℕ) (b : ℕ) → set_bytes_from m (xs ++ b ∷ []) ≡ set_bytes_from m xs * 256 + b
set_bytes-snoc m [] b = refl
set_bytes-snoc m (x ∷ xs) b = set_bytes-snoc (m * 256 + x) xs b

quotient_small : (n p : ℕ) → n < 256 * p → n / 256 < p
quotient_small n p h = omega arith

pow_suc : (k : ℕ) → 256 ^ suc k ≡ 256 * 256 ^ k
pow_suc k = pow_step 256 k

-- the number is read back from its bytes
pub set_bytes-bytes_of : (k n : ℕ) → n < 256 ^ k → set_bytes (bytes_of k n) ≡ n
unfolding bytes_of
set_bytes-bytes_of zero n h = omega arith
set_bytes-bytes_of (suc k) n h =
    set_bytes-snoc 0 (bytes_of k (n / 256)) (n % 256)
    ∙ ap (λ q. q * 256 + n % 256)
        (set_bytes-bytes_of k (n / 256) (quotient_small n (256 ^ k) (rw (sym (pow_suc k)) h)))
    ∙ omega arith

drop_append : (xs ys : List ℕ) → drop (length xs) (xs ++ ys) ≡ ys
drop_append [] ys = refl
drop_append (x ∷ xs) ys = drop_append xs ys

pub take-word : (n : ℕ) (rest : List ℕ) → take 32 (word_of n ++ rest) ≡ word_of n
take-word n rest =
    ap (λ k. take k (word_of n ++ rest)) (sym (length-bytes_of 32 n)) ∙ take_append (word_of n) rest

pub drop-word : (n : ℕ) (rest : List ℕ) → drop 32 (word_of n ++ rest) ≡ rest
drop-word n rest =
    ap (λ k. drop k (word_of n ++ rest)) (sym (length-bytes_of 32 n)) ∙ drop_append (word_of n) rest

drop_nil : (n : ℕ) → drop {A = ℕ} n [] ≡ []
drop_nil zero = refl
drop_nil (suc n) = refl

drop_add : (m n : ℕ) (xs : List ℕ) → drop (m + n) xs ≡ drop n (drop m xs)
drop_add zero n xs = ap (λ k. drop k xs) (omega arith)
drop_add (suc m) n [] = drop_nil (suc m + n) ∙ sym (drop_nil n)
drop_add (suc m) n (x ∷ xs) =
    ap (λ k. drop k (x ∷ xs)) (let e : suc m + n ≡ suc (m + n) = omega arith in e) ∙ drop_add m n xs

set_bytes-word_of : (n : ℕ) → n < 2 ^ 256 → set_bytes (word_of n) ≡ n
set_bytes-word_of n h = set_bytes-bytes_of 32 n h

-- what a handler reads of data that is one word
pub record Word1 (a : ℕ) (bytes : List ℕ) : Type 0 where
  pub length_eq : length bytes ≡ 32
  pub all_eq : set_bytes bytes ≡ a
  pub first_eq : set_bytes (take 32 bytes) ≡ a

pub word1 : (a : ℕ) (bytes : List ℕ) → bytes ≡ word_of a → a < 2 ^ 256 → Word1 a bytes
word1 a bytes e h = record {
  length_eq = ap length e ∙ length-bytes_of 32 a;
  all_eq = ap set_bytes e ∙ set_bytes-word_of a h;
  first_eq =
      ap (λ b. set_bytes (take 32 b)) (e ∙ sym (append-nil (word_of a)))
      ∙ ap set_bytes (take-word a [])
      ∙ set_bytes-word_of a h;
}

-- what it reads of data that is two words
pub record Words2 (a b : ℕ) (bytes : List ℕ) : Type 0 where
  pub length_eq : length bytes ≡ 64
  pub first_eq : set_bytes (take 32 bytes) ≡ a
  pub second_eq : set_bytes (drop 32 bytes) ≡ b

pub words2 :
    (a b : ℕ) (bytes : List ℕ)
    → bytes ≡ word_of a ++ word_of b
    → a < 2 ^ 256
    → b < 2 ^ 256
    → Words2 a b bytes
words2 a b bytes e h k = record {
  length_eq =
      ap length e
      ∙ length-append (word_of a) (word_of b)
      ∙ omega (arith, length-bytes_of 32 a, length-bytes_of 32 b);
  first_eq =
      ap (λ c. set_bytes (take 32 c)) e
      ∙ ap set_bytes (take-word a (word_of b))
      ∙ set_bytes-word_of a h;
  second_eq =
      ap (λ c. set_bytes (drop 32 c)) e
      ∙ ap set_bytes (drop-word a (word_of b))
      ∙ set_bytes-word_of b k;
}

-- what it reads of data that is three words
pub record Words3 (a b c : ℕ) (bytes : List ℕ) : Type 0 where
  pub length_eq : length bytes ≡ 96
  pub first_eq : set_bytes (take 32 bytes) ≡ a
  pub second_eq : set_bytes (take 32 (drop 32 bytes)) ≡ b
  pub third_eq : set_bytes (drop 64 bytes) ≡ c

pub words3 :
    (a b c : ℕ) (bytes : List ℕ)
    → bytes ≡ word_of a ++ (word_of b ++ word_of c)
    → a < 2 ^ 256
    → b < 2 ^ 256
    → c < 2 ^ 256
    → Words3 a b c bytes
words3 a b c bytes e h k l =
    let rest =
      words2 b c (drop 32 bytes) (ap (drop 32) e ∙ drop-word a (word_of b ++ word_of c)) k l in
    record {
      length_eq =
          ap length e
          ∙ length-append (word_of a) (word_of b ++ word_of c)
          ∙ ap (λ n. length (word_of a) + n) (length-append (word_of b) (word_of c))
          ∙ omega (arith, length-bytes_of 32 a, length-bytes_of 32 b, length-bytes_of 32 c);
      first_eq =
          ap (λ d. set_bytes (take 32 d)) e
          ∙ ap set_bytes (take-word a (word_of b ++ word_of c))
          ∙ set_bytes-word_of a h;
      second_eq = rest.first_eq;
      third_eq = ap set_bytes (drop_add 32 32 bytes) ∙ rest.second_eq;
    }
