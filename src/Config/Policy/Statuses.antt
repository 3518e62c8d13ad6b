-- ===== src/Config/Policy/Statuses.antt =====
-- `_parse_immediate_client_error_statuses`: sorted, distinct and in range
-- (src/debugbundle/config.py).
use debugbundle_python.Prelude.{
  ℕ, ◌+◌, ◌≤◌, ◌<◌, ◌≡◌, refl, ap, some, true, false, ◌&&◌, List, [], ◌∷◌, length, All, arith, leb,
  ltb, nat_eqb, inl, inr, Bool-cases, >>=-eq-some,
}
use debugbundle_python.Prelude.Int.{pos}
use debugbundle_python.Json.{Json, Items, nil, cons, null, int, list, elements}
use debugbundle_python.Config.{client_error, insert_status, read_statuses, parse_statuses}

abbrev pub Ascending : List ℕ → Type 0
Ascending [] = Unit
Ascending (n ∷ ns) = All (λ m. n < m) ns × Ascending ns

abbrev pub InRange : ℕ → Type 0
InRange n = (400 ≤ n) × (n ≤ 499)

pub record StatusesOk (ns : List ℕ) : Type 0 where
  pub sorted : Ascending ns
  pub in_range : All InRange ns
  pub few : length ns ≤ 12

abbrev pub ints : List ℕ → Items
ints [] = nil
ints (n ∷ ns) = cons (int (pos n)) (ints ns)

All-insert_status {μ} :
    (P : ℕ → Type μ) (n : ℕ) (ms : List ℕ) → P n → All P ms → All P (insert_status n ms)
unfolding insert_status
All-insert_status P n [] p a = (p, tt)
All-insert_status P n (m ∷ ms) p a = elim (Bool-cases (ltb n m)) [
  | inl before ↦ rw before (p, a)
  | inr after ↦ elim (Bool-cases (nat_eqb n m)) [
    | inl same ↦ rw (after, same) a
    | inr other ↦ rw (after, other) (a.0, All-insert_status P n ms p a.1)
  ]
]

weaken : (n m : ℕ) (ms : List ℕ) → n < m → All (λ k. m < k) ms → All (λ k. n < k) ms
weaken n m [] lt a = tt
weaken n m (k ∷ ms) lt a = (omega arith, weaken n m ms lt a.1)

insert_status-Ascending : (n : ℕ) (ms : List ℕ) → Ascending ms → Ascending (insert_status n ms)
unfolding insert_status
insert_status-Ascending n [] a = (tt, tt)
insert_status-Ascending n (m ∷ ms) a = elim (Bool-cases (ltb n m)) [
  | inl before ↦ rw before ((ground (arith, before), weaken n m ms (ground (arith, before)) a.0), a)
  | inr after ↦ elim (Bool-cases (nat_eqb n m)) [
    | inl same ↦ rw (after, same) a
    | inr other ↦
        rw (after, other)
          (
            All-insert_status (λ k. m < k) n ms (ground (arith, after, other)) a.0,
            insert_status-Ascending n ms a.1,
          )
  ]
]

length-insert_status-le : (n : ℕ) (ms : List ℕ) → length (insert_status n ms) ≤ length ms + 1
unfolding insert_status
length-insert_status-le n [] = omega arith
length-insert_status-le n (m ∷ ms) = ground (arith, length-insert_status-le n ms)

pub client_error-InRange : (item : Json) (n : ℕ) → client_error item ≡ some n → InRange n
unfolding client_error
client_error-InRange (int (pos m)) n h = ground arith
client_error-InRange _ n h = cc

read_statuses-Ascending :
    (items : List Json) (ns : List ℕ)
    → read_statuses items ≡ some ns
    → Ascending ns × All InRange ns × (length ns ≤ length items)
unfolding read_statuses
read_statuses-Ascending [] ns h = let e : ns ≡ [] = ground arith in rw e (tt, tt, omega arith)
read_statuses-Ascending (item ∷ items) ns h =
    let (n, one, h') = >>=-eq-some (client_error item) _ h in
    let (rest, more, e) = >>=-eq-some (read_statuses items) _ h' in
    let (sorted, in_range, few) = read_statuses-Ascending items rest more in
    let e' : ns ≡ insert_status n rest = cc in
    rw e' (
      insert_status-Ascending n rest sorted,
      All-insert_status InRange n rest (client_error-InRange item n one) in_range,
      omega (arith, length-insert_status-le n rest),
    )

pub parse_statuses-StatusesOk :
    (value : Json) (ns : List ℕ) → parse_statuses value ≡ some ns → StatusesOk ns
unfolding parse_statuses
parse_statuses-StatusesOk null ns h =
    let e : ns ≡ [] = ground arith in
    rw e (record { sorted = tt; in_range = tt; few = omega arith })
parse_statuses-StatusesOk (list items) ns h = elim (Bool-cases (ltb 12 (length (elements items)))) [
  | inl many ↦ absurd (ground (arith, many))
  | inr few ↦
      let (sorted, in_range, fewer) =
        read_statuses-Ascending (elements items) ns (ground (arith, few)) in
      record { sorted = sorted; in_range = in_range; few = ground (arith, few, fewer) }
]
parse_statuses-StatusesOk _ ns h = cc

insert_status_first : (n : ℕ) (ms : List ℕ) → All (λ m. n < m) ms → insert_status n ms ≡ n ∷ ms
unfolding insert_status
insert_status_first n [] a = refl
insert_status_first n (m ∷ ms) a = ground (arith, a.0)

read_statuses-ints :
    (ns : List ℕ) → Ascending ns → All InRange ns → read_statuses (elements (ints ns)) ≡ some ns
unfolding read_statuses client_error
read_statuses-ints [] s r = refl
read_statuses-ints (n ∷ ns) s r =
    let one : (leb 400 n && leb n 499) ≡ true = ground (arith, r.0) in
    rw (one, read_statuses-ints ns s.1 r.1) (ap some (insert_status_first n ns s.0))

length-ints : (ns : List ℕ) → length (elements (ints ns)) ≡ length ns
length-ints [] = refl
length-ints (n ∷ ns) = omega (arith, length-ints ns)

pub parse_statuses-ints : (ns : List ℕ) → StatusesOk ns → parse_statuses (list (ints ns)) ≡ some ns
unfolding parse_statuses
parse_statuses-ints ns ok =
    let few : ltb 12 (length (elements (ints ns))) ≡ false =
      ground (arith, ok.few, length-ints ns) in
    rw few (read_statuses-ints ns ok.sorted ok.in_range)
