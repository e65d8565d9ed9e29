-- ===== src/WebhookServer/ServedTargets/Aggregation.antt =====
-- internal/servedtargets: a server serves what every one of its live replicas serves.
use declarative_conversion_o.Prelude.{
  ℕ, ◌+◌, ◌≤◌, ◌<◌, String, ◌≡◌, ◌↔◌, refl, ◌∙◌, ap, Bool, true, false, ◌||◌, none, some, List, [],
  ◌∷◌, ◌==◌, eq_iff, nat_eq, inl, inr, arith, Bool-cases, Option-cases, All, any, if◌then◌else◌,
}
use declarative_conversion_o.Prelude.Text.{sort_strings, insert_sorted, str_ltb}
use declarative_conversion_o.Prelude.Assoc.{Map, lookup, insert, lookup-insert}
use declarative_conversion_o.WebhookServer.ServedTargets.{
  Codec, Lease, Statement, gone, unclear, names, Tally, no_tally, count_of, count_names,
  count_statement, names_at, served_of, statement, tally, aggregate,
}

-- How often a name stands in a list.
abbrev pub occurrences : String → List String → ℕ
occurrences name [] = 0
occurrences name (n ∷ ns) = (if n == name then 1 else 0) + occurrences name ns

module _ (name : String) where
  count_of-insert :
      (key : String) (n : ℕ) (m : Map ℕ)
      → count_of name (insert key n m) ≡ (if key == name then n else count_of name m)
  count_of-insert key n m = elim (Bool-cases (key == name)) [
    | inl e ↦ rw (lookup-insert, e) refl
    | inr e ↦ rw (lookup-insert, e) refl
  ]

  count_names-occurrences :
      (ns : List String) (m : Map ℕ)
      → count_of name (count_names ns m) ≡ count_of name m + occurrences name ns
  unfolding count_names
  count_names-occurrences [] m = omega arith
  count_names-occurrences (n ∷ ns) m =
      let rec = count_names-occurrences ns (insert n (count_of n m + 1) m) in
      elim (Bool-cases (n == name)) [
        | inl e ↦
            let same = (eq_iff n name).0 e in
            rw (rec, count_of-insert n (count_of n m + 1) m, e, same) (omega arith)
        | inr e ↦ rw (rec, count_of-insert n (count_of n m + 1) m, e) (omega arith)
      ]

-- No key stands twice.
abbrev Unique : Map ℕ → Type 0
Unique [] = Unit
Unique ((key, n) ∷ m) = (lookup key m ≡ none) × Unique m

Unique-insert : (key : String) (n : ℕ) (m : Map ℕ) → Unique m → Unique (insert key n m)
unfolding insert lookup
Unique-insert key n [] u = (refl, tt)
Unique-insert key n ((k, old) ∷ m) (fresh, u) = elim (Bool-cases (k == key)) [
  | inl e ↦ rw e (rw ((eq_iff k key).0 e) at fresh, u)
  | inr e ↦ rw e (
    ground (arith, eq_iff k key, eq_iff key k, lookup-insert key k n m, fresh),
    Unique-insert key n m u,
  )
]

Unique-count_names : (ns : List String) (m : Map ℕ) → Unique m → Unique (count_names ns m)
unfolding count_names
Unique-count_names [] m u = u
Unique-count_names (n ∷ ns) m u = Unique-count_names ns _ (Unique-insert n _ m u)

abbrev pub stands_in : String → List String → Bool
stands_in name ns = any (λ n. n == name) ns

not_at :
    (name : String) (n : ℕ) (m : Map ℕ)
    → lookup name m ≡ none
    → stands_in name (names_at n m) ≡ false
unfolding lookup names_at
not_at name n [] h = refl
not_at name n ((k, count) ∷ m) h = ground (arith, not_at name n m)

-- The names at a count are the keys with it.
names_at-lookup :
    (name : String) (n : ℕ) (m : Map ℕ)
    → Unique m
    → (stands_in name (names_at n m) ≡ true) ↔ (lookup name m ≡ some n)
unfolding lookup names_at
names_at-lookup name n [] u = (λ h. cc h, λ h. cc h)
names_at-lookup name n ((k, count) ∷ m) (fresh, u) =
    let (here, back) = names_at-lookup name n m u in
    elim (Bool-cases (k == name)) [
      | inl e ↦
          let none_left = not_at name n m (rw ((eq_iff k name).0 e) at fresh) in
          elim (Bool-cases (nat_eq count n)) [
            | inl f ↦
                let same : count ≡ n = ground arith in rw (e, f) (λ h. ap some same, λ h. rw e refl)
            | inr f ↦ rw (e, f) (λ h. cc (none_left, h), λ h. absurd (ground (arith, h)))
          ]
      | inr e ↦ elim (Bool-cases (nat_eq count n)) [
        | inl f ↦ rw (e, f) (λ h. here (rw e at h), λ h. rw e (back h))
        | inr f ↦ rw (e, f) (here, back)
      ]
    ]

insert_sorted-any :
    (name s : String) (ss : List String)
    → stands_in name (insert_sorted s ss) ≡ ((s == name) || stands_in name ss)
unfolding insert_sorted
insert_sorted-any name s [] = ground arith
insert_sorted-any name s (t ∷ ts) = elim (Bool-cases (str_ltb t s)) [
  | inl e ↦ rw e (rw (insert_sorted-any name s ts) (ground arith))
  | inr e ↦ rw e refl
]

sort_strings-any :
    (name : String) (ss : List String) → stands_in name (sort_strings ss) ≡ stands_in name ss
unfolding sort_strings
sort_strings-any name [] = refl
sort_strings-any name (s ∷ ss) =
    rw (insert_sorted-any name s (sort_strings ss), sort_strings-any name ss) refl

-- A lease is gone, or says a list in which the name stands at most once.
abbrev pub States : String → Statement → Type 0
States name gone = Unit
States name unclear = ⊥
States name (names ns) = occurrences name ns ≤ 1

-- A lease is gone, or says a list with the name in it.
abbrev pub Names : String → Statement → Type 0
Names name gone = Unit
Names name unclear = ⊥
Names name (names ns) = occurrences name ns ≡ 1

abbrev live_statement : Statement → ℕ
live_statement gone = 0
live_statement _ = 1

abbrev said : String → Statement → ℕ
said name (names ns) = occurrences name ns
said name _ = 0

module _ (c : Codec) (now : ℕ) (name : String) where
  abbrev pub live : List Lease → ℕ
  live [] = 0
  live (l ∷ ls) = live_statement (statement c now l) + live ls

  abbrev total : List Lease → ℕ
  total [] = 0
  total (l ∷ ls) = said name (statement c now l) + total ls

  record Counted (ls : List Lease) (t t' : Tally) : Type 0 where
    reporting : t'.reporting ≡ t.reporting + live ls
    count : count_of name t'.counts ≡ count_of name t.counts + total ls
    clear : t'.truncated ≡ t.truncated
    unique : Unique t.counts → Unique t'.counts

  counted_one :
      (s : Statement) (t : Tally)
      → States name s
      → let t' = count_statement s t in
        (t'.reporting ≡ t.reporting + live_statement s)
        × (count_of name t'.counts ≡ count_of name t.counts + said name s)
        × (t'.truncated ≡ t.truncated)
        × (Unique t.counts → Unique t'.counts)
  unfolding count_statement
  counted_one gone t h = (omega arith, omega arith, refl, λ u. u)
  counted_one unclear t h = absurd h
  counted_one (names ns) t h =
      (refl, count_names-occurrences name ns t.counts, refl, Unique-count_names ns t.counts)

  tally-Counted :
      (ls : List Lease) (t : Tally)
      → All (λ l. States name (statement c now l)) ls
      → Counted ls t (tally c now ls t)
  unfolding tally
  tally-Counted [] t h = record {
    reporting = omega arith;
    count = omega arith;
    clear = refl;
    unique = λ u. u;
  }
  tally-Counted (l ∷ ls) t (h, hs) =
      let (reporting, count, clear, unique) = counted_one (statement c now l) t h in
      let rest = tally-Counted ls (count_statement (statement c now l) t) hs in
      record {
        reporting = omega (arith, reporting, rest.reporting);
        count = omega (arith, count, rest.count);
        clear = rest.clear ∙ clear;
        unique = λ u. rest.unique (unique u);
      }

  -- The name is said at most once by each live lease, and as often as there are live leases
  -- exactly if each of them says it.
  one_total : (s : Statement) → States name s → said name s ≤ live_statement s
  one_total gone h = omega arith
  one_total unclear h = absurd h
  one_total (names ns) h = h

  one_named : (s : Statement) → States name s → said name s ≡ live_statement s → Names name s
  one_named gone h e = tt
  one_named unclear h e = h
  one_named (names ns) h e = e

  named_one : (s : Statement) → Names name s → said name s ≡ live_statement s
  named_one gone h = refl
  named_one unclear h = absurd h
  named_one (names ns) h = h

  total-le-live :
      (ls : List Lease) → All (λ l. States name (statement c now l)) ls → total ls ≤ live ls
  total-le-live [] h = omega arith
  total-le-live (l ∷ ls) (h, hs) =
      omega (arith, one_total (statement c now l) h, total-le-live ls hs)

  all_named :
      (ls : List Lease)
      → All (λ l. States name (statement c now l)) ls
      → (total ls ≡ live ls) ↔ All (λ l. Names name (statement c now l)) ls
  all_named [] h = (λ e. tt, λ a. refl)
  all_named (l ∷ ls) (h, hs) =
      let bound = one_total (statement c now l) h in
      let below = total-le-live ls hs in
      let (to, from) = all_named ls hs in
      (
        λ e. (
          one_named (statement c now l) h (omega (arith, e, bound, below)),
          to (omega (arith, e, bound, below)),
        ),
        λ (a, others). omega (arith, named_one (statement c now l) a, from others),
      )

  -- A count above 0 is that of a key.
  counted_key : (m : Map ℕ) (n : ℕ) → 0 < n → (lookup name m ≡ some n) ↔ (count_of name m ≡ n)
  counted_key m n positive = elim (Option-cases (lookup name m)) [
    | inl e ↦ rw e (λ h. cc h, λ h. absurd (omega (arith, h, positive)))
    | inr (k, e) ↦ rw e (λ h. cc h, λ h. ap some h)
  ]

  served_of-names :
      (t : Tally)
      → t.truncated ≡ false
      → Unique t.counts
      → (stands_in name (served_of t).served ≡ true)
        ↔ ((0 < t.reporting) × (count_of name t.counts ≡ t.reporting))
  unfolding served_of
  served_of-names t clear u = elim (Bool-cases (nat_eq t.reporting 0)) [
    | inl e ↦ rw (clear, e) (λ h. cc h, λ (p, q). absurd (ground (arith, p)))
    | inr e ↦
        let positive : 0 < t.reporting = ground arith in
        let (to, from) = names_at-lookup name t.reporting t.counts u in
        let (count, key) = counted_key t.counts t.reporting positive in
        rw (clear, e, sort_strings-any name (names_at t.reporting t.counts))
          (λ h. (positive, count (to h)), λ (p, q). from (key q))
  ]

  -- Where every live lease can say what its replica serves, and says no target twice, a target is
  -- served by the server exactly if there is a live lease and each live lease says the target.
  pub aggregate_iff :
      (leases : List Lease)
      → All (λ l. States name (statement c now l)) leases
      → (stands_in name (aggregate c leases now).served ≡ true)
        ↔ ((0 < live leases) × All (λ l. Names name (statement c now l)) leases)
  unfolding aggregate lookup
  aggregate_iff leases h =
      let t = tally c now leases no_tally in
      let counted = tally-Counted leases no_tally h in
      let (to, from) = served_of-names t counted.clear (counted.unique tt) in
      let (each, all_of) = all_named leases h in
      let none_counted : count_of name no_tally.counts ≡ 0 = refl in
      (
        λ s.
            let (p, q) = to s in
            (
              omega (arith, p, counted.reporting),
              each (omega (arith, q, counted.reporting, counted.count, none_counted)),
            ),
        λ (p, names_all).
            let e = all_of names_all in
            from (
              omega (arith, p, counted.reporting),
              omega (arith, e, counted.reporting, counted.count, none_counted),
            ),
      )
