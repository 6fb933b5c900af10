-- ===== src/Storage/Redis/Distinct.antt =====
-- rate-limiter/internal/storage/redis.go: the distinct times of two histories, one a part of the other.
use rate_limiter.Base.{
  ℕ, suc, ◌≤◌, ◌≡◌, refl, inl, inr, true, not, ◌&&◌, List, [], ◌∷◌, ◌==◌, if◌then◌else◌, arith,
  Bool-cases,
}
use rate_limiter.Storage.Redis.Members.{has, distinct}

abbrev without : ℕ → List ℕ → List ℕ
without x [] = []
without x (y ∷ ys) = let rest = without x ys in if y == x then rest else y ∷ rest

has-without : (y x : ℕ) (ys : List ℕ) → has y (without x ys) ≡ (not (y == x) && has y ys)
has-without y x [] = ground arith
has-without y x (z ∷ zs) = ground (arith, has-without y x zs)

distinct-without :
    (x : ℕ) (ys : List ℕ)
    → distinct ys ≡ (if has x ys then suc (distinct (without x ys)) else distinct (without x ys))
distinct-without x [] = refl
distinct-without x (y ∷ ys) = ground (arith, distinct-without x ys, has-without y x ys)

abbrev pub Part : List ℕ → List ℕ → Type 0
Part xs ys = (y : ℕ) → has y xs ≡ true → has y ys ≡ true

pub distinct-Part : (xs ys : List ℕ) → Part xs ys → distinct xs ≤ distinct ys
distinct-Part [] ys p = omega arith
distinct-Part (x ∷ xs) ys p = elim (Bool-cases (has x xs)) [
  | inl old ↦ ground (arith, old, distinct-Part xs ys (λ y h. p y (ground (arith, h))))
  | inr new ↦
      let smaller : distinct xs ≤ distinct (without x ys) =
        distinct-Part xs (without x ys)
          (λ y h. ground (arith, h, new, has-without y x ys, p y (ground (arith, h)))) in
      ground (arith, new, smaller, distinct-without x ys, p x (ground arith))
]
