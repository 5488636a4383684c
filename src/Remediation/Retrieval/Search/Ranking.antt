-- ===== src/Remediation/Retrieval/Search/Ranking.antt =====
-- Which sections the search returns, and in which order.
use mathlib.Core.List.{Memᴰ}
use tradeops_sentinel.Base.{
  Bool-cases, List, String, [], ap, arith, false, inl, inr, insert, length, ltb, mem-insert, refl,
  sorted, suc, zero, ℕ, ◌∷◌, ◌≡◌, ◌≤◌, ◌⊎◌,
}
use tradeops_sentinel.Remediation.Retrieval.{RunbookSection}
use tradeops_sentinel.Remediation.Retrieval.Search.{overlap_of, score_ge, scored, take}

-- In the order of falling scores.
abbrev pub Falls : List (ℕ × RunbookSection) → Type 0
Falls [] = Unit
Falls (p ∷ ps) = ((q : ℕ × RunbookSection) → Memᴰ q ps → q.0 ≤ p.0) × Falls ps

insert-Falls :
    (p : ℕ × RunbookSection) (qs : List (ℕ × RunbookSection))
    → Falls qs
    → Falls (insert score_ge p qs)
unfolding insert
insert-Falls p [] falls = (λ q m. elim m [ ], tt)
insert-Falls p (q ∷ qs) (below, falls) = elim (Bool-cases (score_ge p q)) [
  | inl before ↦
      let lower : q.0 ≤ p.0 = ground (arith, before) in
      rw before (
        λ r m. elim m [ Memᴰ.head e ↦ rw e lower | Memᴰ.tail n ↦ omega (arith, below r n, lower) ],
        (below, falls),
      )
  | inr after ↦
      let higher : p.0 ≤ q.0 = ground (arith, after) in
      rw after (
        λ r m. elim (mem-insert score_ge p qs m) [ inl e ↦ rw e higher | inr n ↦ below r n ],
        insert-Falls p qs falls,
      )
]

pub sorted-Falls : (ps : List (ℕ × RunbookSection)) → Falls (sorted score_ge ps)
unfolding sorted
sorted-Falls [] = tt
sorted-Falls (p ∷ ps) = insert-Falls p (sorted score_ge ps) (sorted-Falls ps)

pub mem-take : {A : Type 0} (k : ℕ) (xs : List A) {x : A} → Memᴰ x (take k xs) → Memᴰ x xs
mem-take zero xs m = elim m [ ]
mem-take (suc k) [] m = m
mem-take (suc k) (y ∷ ys) (Memᴰ.head e) = Memᴰ.head e
mem-take (suc k) (y ∷ ys) (Memᴰ.tail m) = Memᴰ.tail (mem-take k ys m)

pub length-take_le : {A : Type 0} (k : ℕ) (xs : List A) → length (take k xs) ≤ k
length-take_le zero xs = omega arith
length-take_le (suc k) [] = omega arith
length-take_le (suc k) (x ∷ xs) = omega (arith, length-take_le k xs)

pub take-Falls : (k : ℕ) (ps : List (ℕ × RunbookSection)) → Falls ps → Falls (take k ps)
take-Falls zero ps falls = tt
take-Falls (suc k) [] falls = tt
take-Falls (suc k) (p ∷ ps) (below, falls) =
    (λ q m. below q (mem-take k ps m), take-Falls k ps falls)

-- What the cut leaves out scores no more than what it keeps.
pub take_best :
    (k : ℕ) (ps : List (ℕ × RunbookSection)) (q : ℕ × RunbookSection)
    → Falls ps
    → Memᴰ q ps
    → Memᴰ q (take k ps)
      ⊎ ((length (take k ps) ≡ k) × ((p : ℕ × RunbookSection) → Memᴰ p (take k ps) → q.0 ≤ p.0))
take_best zero ps q falls m = inr (refl, λ p n. elim n [ ])
take_best (suc k) [] q falls m = elim m [ ]
take_best (suc k) (p ∷ ps) q (below, falls) (Memᴰ.head e) = inl (Memᴰ.head e)
take_best (suc k) (p ∷ ps) q (below, falls) (Memᴰ.tail m) = elim (take_best k ps q falls m) [
  | inl kept ↦ inl (Memᴰ.tail kept)
  | inr (full, best) ↦
      inr (ap suc full, λ r n. elim n [ Memᴰ.head e ↦ rw e (below q m) | Memᴰ.tail n' ↦ best r n' ])
]

module _ (lower : String → String) (query : String) where
  pub mem-scored :
      (index : List RunbookSection) {p : ℕ × RunbookSection}
      → Memᴰ p (scored lower query index)
      → Memᴰ p.1 index × (p.0 ≡ overlap_of lower query p.1) × (1 ≤ p.0)
  unfolding scored
  mem-scored [] m = elim m [ ]
  mem-scored (s ∷ index) {p} m = elim (Bool-cases (ltb 0 (overlap_of lower query s))) [
    | inl shares ↦
        let positive : 1 ≤ overlap_of lower query s = ground (arith, shares) in
        elim (rw shares at m) [
          | Memᴰ.head e ↦ (Memᴰ.head (ap (λ q. q.1) e), rw e refl, rw e positive)
          | Memᴰ.tail n ↦
              let (known, score, positive') = mem-scored index n in
              (Memᴰ.tail known, score, positive')
        ]
    | inr other ↦
        let (known, score, positive) = mem-scored index (rw other at m) in
        (Memᴰ.tail known, score, positive)
  ]

  pub mem_scored_of_mem :
      (index : List RunbookSection) {s : RunbookSection}
      → Memᴰ s index
      → 1 ≤ overlap_of lower query s
      → Memᴰ (overlap_of lower query s, s) (scored lower query index)
  unfolding scored
  mem_scored_of_mem [] m h = elim m [ ]
  mem_scored_of_mem (t ∷ index) {s} m h = elim (Bool-cases (ltb 0 (overlap_of lower query t))) [
    | inl shares ↦ rw shares (elim m [
      | Memᴰ.head e ↦ Memᴰ.head (ap (λ u. (overlap_of lower query u, u)) e)
      | Memᴰ.tail n ↦ Memᴰ.tail (mem_scored_of_mem index n h)
    ])
    | inr other ↦ rw other (elim m [
      | Memᴰ.head e ↦
          let unshared : ltb 0 (overlap_of lower query s) ≡ false = rw e other in
          ground (arith, unshared, h)
      | Memᴰ.tail n ↦ mem_scored_of_mem index n h
    ])
  ]
