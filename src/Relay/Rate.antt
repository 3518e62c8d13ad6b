-- ===== src/Relay/Rate.antt =====
-- `_is_rate_limited` (src/debugbundle/relay.py) against the history of all requests it let through.
use mathlib.Core.List.{append-nil}
use debugbundle_python.Prelude.{
  ℕ, ◌+◌, ◌≤◌, ◌≡◌, ◌∙◌, refl, sym, ap, subst, ◌<◌, String, Option, Bool, true, false, List, [],
  ◌∷◌, ◌++◌, length, ltb, leb, arith, length-append, Bool-cases, inl, inr, string_eq, ◌==◌, ==_iff,
  ==_refl, if◌then◌else◌, or_else, leb→gt,
}
use debugbundle_python.Prelude.Dict
use debugbundle_python.Prelude.Dict.{Dict, get-put}
use debugbundle_python.Relay.{recent, rate_key, times_of, is_rate_limited}

-- The requests that were let through, from the first to the last, each with its key and its time.
abbrev pub History : Type 0
History = List (String × ℕ)

abbrev pub times : String → History → List ℕ
times key [] = []
times key ((k, ts) ∷ rest) = if k == key then ts ∷ times key rest else times key rest

-- A request is over the limit where the last minute has as many requests of its key.
abbrev pub over_limit : ℕ → History → Option String → ℕ → Bool
over_limit limit past ip now = leb limit (length (recent now (times (rate_key ip) past)))

abbrev pub after_request : History → Option String → ℕ → Bool → History
after_request past ip now true = past
after_request past ip now false = past ++ ((rate_key ip, now) ∷ [])

-- The state of the handler stands for a history: from now on it shows the same requests.
abbrev pub Stands : ℕ → Dict String (List ℕ) → History → Type 0
Stands now state past =
    (key : String) (t : ℕ) → now ≤ t → recent t (times_of state key) ≡ recent t (times key past)

recent_again : (now t : ℕ) (xs : List ℕ) → now ≤ t → recent t (recent now xs) ≡ recent t xs
recent_again now t [] le = refl
recent_again now t (x ∷ xs) le = ground (arith, recent_again now t xs le)

recent-append : (t : ℕ) (xs ys : List ℕ) → recent t (xs ++ ys) ≡ recent t xs ++ recent t ys
recent-append t [] ys = refl
recent-append t (x ∷ xs) ys = elim (Bool-cases (ltb t (x + 60))) [
  | inl new ↦ rw new (ap (λ zs. x ∷ zs) (recent-append t xs ys))
  | inr old ↦ rw old (recent-append t xs ys)
]

length-recent-le :
    (now t : ℕ) (xs : List ℕ) → now ≤ t → length (recent t xs) ≤ length (recent now xs)
length-recent-le now t [] le = omega arith
length-recent-le now t (x ∷ xs) le = ground (arith, length-recent-le now t xs le)

times-append :
    (key : String) (xs ys : History) → times key (xs ++ ys) ≡ times key xs ++ times key ys
times-append key [] ys = refl
times-append key ((k, ts) ∷ xs) ys = elim (Bool-cases (k == key)) [
  | inl same ↦ rw same (ap (λ zs. ts ∷ zs) (times-append key xs ys))
  | inr other ↦ rw other (times-append key xs ys)
]

times_of-put :
    (state : Dict String (List ℕ)) (k key : String) (ts : List ℕ)
    → times_of (Dict.put state k ts) key ≡ (if k == key then ts else times_of state key)
times_of-put state k key ts = elim (Bool-cases (k == key)) [
  | inl same ↦ ap (λ o. or_else o []) (get-put state k ts key) ∙ (rw same refl)
  | inr other ↦ ap (λ o. or_else o []) (get-put state k ts key) ∙ (rw other refl)
]

-- The list of one key is replaced by one that shows the same requests as its history.
put-Stands :
    (state : Dict String (List ℕ)) (past past' : History) (before now : ℕ) (k : String)
    (ts : List ℕ)
    → Stands before state past
    → before ≤ now
    → ((t : ℕ) → now ≤ t → recent t ts ≡ recent t (times k past'))
    → ((key : String) → (k == key) ≡ false → times key past' ≡ times key past)
    → Stands now (Dict.put state k ts) past'
put-Stands state past past' before now k ts s le own others key t after =
    elim (Bool-cases (k == key)) [
      | inl same ↦
          ap (recent t) (times_of-put state k key ts ∙ (rw same refl))
          ∙ own t after
          ∙ ap (λ j. recent t (times j past')) ((==_iff k key).0 same)
      | inr other ↦
          ap (recent t) (times_of-put state k key ts ∙ (rw other refl))
          ∙ s key t (omega (arith, le, after))
          ∙ ap (recent t) (sym (others key other))
    ]

-- The handler refuses a request exactly where the history is over the limit, and then stands for the
-- history with the request if it was let through.
is_rate_limited-Stands :
    (limit : ℕ) (state : Dict String (List ℕ)) (past : History) (before now : ℕ)
    (ip : Option String)
    → Stands before state past
    → before ≤ now
    → ((is_rate_limited limit state ip now).0 ≡ over_limit limit past ip now)
      × Stands now
          (is_rate_limited limit state ip now).1
          (after_request past ip now (is_rate_limited limit state ip now).0)
unfolding is_rate_limited
is_rate_limited-Stands limit state past before now ip s le =
    let k : String = rate_key ip in
    let shown : List ℕ = recent now (times_of state k) in
    let same : shown ≡ recent now (times k past) = s k now le in
    let test : leb limit (length shown) ≡ over_limit limit past ip now =
      ap (λ xs. leb limit (length xs)) same in
    let kept : (t : ℕ) → now ≤ t → recent t shown ≡ recent t (times k past) =
      λ t after. recent_again now t (times_of state k) after ∙ s k t (omega (arith, le, after)) in
    elim (Bool-cases (leb limit (length shown))) [
      | inl full ↦ rw full (
        sym full ∙ test,
        put-Stands state past past before now k shown s le kept (λ key other. refl),
      )
      | inr room ↦ rw room (
        sym room ∙ test,
        put-Stands state past (past ++ ((k, now) ∷ [])) before now k (shown ++ (now ∷ [])) s le
            (λ t after.
              recent-append t shown (now ∷ [])
              ∙ ap (λ xs. xs ++ recent t (now ∷ [])) (kept t after)
              ∙ sym (recent-append t (times k past) (now ∷ []))
              ∙ ap (recent t) (sym (times-append k past ((k, now) ∷ []) ∙ (rw (==_refl k) refl))))
            (λ key other.
              times-append key past ((k, now) ∷ []) ∙ (rw other (append-nil (times key past)))),
      )
    ]

-- Within each minute from now on, no key has more requests than the limit.
abbrev pub Within : ℕ → ℕ → History → Type 0
Within limit now past =
    (key : String) (t : ℕ) → now ≤ t → length (recent t (times key past)) ≤ limit

after_request-Within :
    (limit before now : ℕ) (past : History) (ip : Option String)
    → Within limit before past
    → before ≤ now
    → Within limit now (after_request past ip now (over_limit limit past ip now))
after_request-Within limit before now past ip w le =
    elim (Bool-cases (over_limit limit past ip now)) [
      | inl full ↦ rw full (λ key t after. w key t (omega (arith, le, after)))
      | inr room ↦ rw room (λ key t after. elim (Bool-cases (rate_key ip == key)) [
        | inr other ↦
            let split : recent t (times key (past ++ ((rate_key ip, now) ∷ [])))
                ≡ recent t (times key past) =
              ap (recent t) (
                times-append key past ((rate_key ip, now) ∷ [])
                ∙ (rw other (append-nil (times key past)))) in
            omega (arith, ap length split, w key t (omega (arith, le, after)))
        | inl same ↦
            let at_key : times key (past ++ ((rate_key ip, now) ∷ []))
                ≡ times key past ++ (now ∷ []) =
              times-append key past ((rate_key ip, now) ∷ []) ∙ (rw same refl) in
            let few : length (recent now (times (rate_key ip) past)) < limit =
              leb→gt limit _ room in
            let one : length (recent t (now ∷ [])) ≤ 1 = ground arith in
            let split : recent t (times key (past ++ ((rate_key ip, now) ∷ [])))
                ≡ recent t (times key past) ++ recent t (now ∷ []) =
              ap (recent t) at_key ∙ recent-append t (times key past) (now ∷ []) in
            let few' : length (recent now (times key past)) < limit =
              subst (λ k. length (recent now (times k past)) < limit)
                ((==_iff (rate_key ip) key).0 same) few in
            omega (
              arith,
              ap length split,
              length-append (recent t (times key past)) (recent t (now ∷ [])),
              one,
              few',
              length-recent-le now t (times key past) after,
            )
      ])
    ]

-- Requests one after another, each with an address and a time: what the handler answers, and what a
-- handler answers that keeps the whole history, with that history.
abbrev pub Requests : Type 0
Requests = List (Option String × ℕ)

abbrev pub answers : ℕ → Dict String (List ℕ) → Requests → List Bool
answers limit state [] = []
answers limit state ((ip, now) ∷ rest) =
    (is_rate_limited limit state ip now).0
    ∷ answers limit (is_rate_limited limit state ip now).1 rest

abbrev pub history_answers : ℕ → History → Requests → List Bool
history_answers limit past [] = []
history_answers limit past ((ip, now) ∷ rest) =
    over_limit limit past ip now
    ∷ history_answers limit (after_request past ip now (over_limit limit past ip now)) rest

abbrev pub history_after : ℕ → History → Requests → History
history_after limit past [] = past
history_after limit past ((ip, now) ∷ rest) =
    history_after limit (after_request past ip now (over_limit limit past ip now)) rest

abbrev pub last_time : ℕ → Requests → ℕ
last_time before [] = before
last_time before ((ip, now) ∷ rest) = last_time now rest

-- The clock does not go back.
abbrev pub Ordered : ℕ → Requests → Type 0
Ordered before [] = Unit {0}
Ordered before ((ip, now) ∷ rest) = (before ≤ now) × Ordered now rest

answers-from :
    (limit before : ℕ) (state : Dict String (List ℕ)) (past : History) (requests : Requests)
    → Stands before state past
    → Within limit before past
    → Ordered before requests
    → (answers limit state requests ≡ history_answers limit past requests)
      × Within limit (last_time before requests) (history_after limit past requests)
answers-from limit before state past [] s w o = (refl, w)
answers-from limit before state past ((ip, now) ∷ rest) s w (le, o) =
    let (same, s') = is_rate_limited-Stands limit state past before now ip s le in
    let s'' : Stands now (is_rate_limited limit state ip now).1
        (after_request past ip now (over_limit limit past ip now)) =
      subst (λ b. Stands now (is_rate_limited limit state ip now).1 (after_request past ip now b))
        same s' in
    let (more, w') =
      answers-from limit now (is_rate_limited limit state ip now).1 _ rest s''
        (after_request-Within limit before now past ip w le) o in
    (cc, w')

-- From an empty state, and while the clock does not go back, the handler answers each request as
-- one that keeps the whole history and refuses a request where the last minute has as many of its
-- key as the limit; and in each minute from then on no key has more requests than the limit.
pub answers-history :
    (limit : ℕ) (requests : Requests)
    → Ordered 0 requests
    → (answers limit [] requests ≡ history_answers limit [] requests)
      × Within limit (last_time 0 requests) (history_after limit [] requests)
unfolding Dict.get
answers-history limit requests o =
    answers-from limit 0 [] [] requests (λ key t after. refl) (λ key t after. omega arith) o
