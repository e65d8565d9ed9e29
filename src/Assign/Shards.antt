-- ===== src/Assign/Shards.antt =====
-- internal/assign/shard.go: weighted rendezvous hashing picks the member of the pool that no
-- other member beats, whatever the order of the pool.
use mathlib.Core.List.{Memᴰ}
use mathlib.Core.List.Memᴰ
use declarative_conversion_o.Prelude.{
  String, ◌≡◌, ◌≢◌, refl, sym, ap, ◌∙◌, true, false, ◌⊎◌, inl, inr, List, [], ◌∷◌, arith,
  Bool-cases, All, All-at,
}
use declarative_conversion_o.Assign.Ranking.{
  Ordered, Loses, beats_asym, beats-neg_trans, beats_total, beats_irrefl,
}
use declarative_conversion_o.Engine.Json.{Float64}
use declarative_conversion_o.Assign.{Hashing, Server, beats, score_of, pick_from, pick_shard}

module _ (h : Hashing) (o : Ordered h) where
  module _ (key : String) where
    -- The score of the server is a number above minus infinity.
    pub record Rated (s : Server) : Type 0 where
      pub number : o.is_nan (score_of h key s) ≡ false
      pub above : h.gt (score_of h key s) h.neg_inf ≡ true

    -- The server loses against the name and the score.
    abbrev pub LosesTo : String → Float64 → Server → Type 0
    LosesTo name score s = Loses h s.name (score_of h key s) name score

    -- The name and the score are those of a member of the pool.
    abbrev Member : List Server → String → Float64 → Type 0
    Member pool name score =
        (s : Server) × Memᴰ s pool × (name ≡ s.name) × (score ≡ score_of h key s)

    Member-tail :
        (t : Server) (pool : List Server) (name : String) (score : Float64)
        → Member pool name score
        → Member (t ∷ pool) name score
    Member-tail t pool name score m = (m.0, Memᴰ.tail m.1, m.2, m.3)

    -- `pick` is the best so far or a member of the pool, and nothing beats it.
    record Won (pool : List Server) (best : String) (best_score : Float64) (pick : String)
        : Type 0 where
      score : Float64
      number : o.is_nan score ≡ false
      from : ((pick ≡ best) × (score ≡ best_score)) ⊎ Member pool pick score
      first : Loses h best best_score pick score
      rest : All (LosesTo pick score) pool

    pick_from-Won :
        (pool : List Server) (best : String) (best_score : Float64)
        → o.is_nan best_score ≡ false
        → All Rated pool
        → Won pool best best_score (pick_from h key pool best best_score)
    unfolding pick_from
    pick_from-Won [] best best_score n r = record {
      score = best_score;
      number = n;
      from = inl (refl, refl);
      first = beats_irrefl h o best best_score n;
      rest = tt;
    }
    pick_from-Won (s ∷ pool) best best_score n (r, rs) =
        elim (Bool-cases (beats h s.name (score_of h key s) best best_score)) [
          | inl e ↦
              let w = pick_from-Won pool s.name (score_of h key s) r.number rs in
              rw e (record {
                score = w.score;
                number = w.number;
                from = elim w.from [
                  | inl q ↦ inr (s, Memᴰ.head refl, q.0, q.1)
                  | inr m ↦ inr (Member-tail s pool _ w.score m)
                ];
                first =
                    beats-neg_trans h o best s.name _ best_score (score_of h key s) w.score n
                      r.number w.number
                      (beats_asym h o s.name best (score_of h key s) best_score r.number n e)
                      w.first;
                rest = (w.first, w.rest);
              })
          | inr e ↦
              let w = pick_from-Won pool best best_score n rs in
              rw e (record {
                score = w.score;
                number = w.number;
                from = elim w.from [ inl q ↦ inl q | inr m ↦ inr (Member-tail s pool _ w.score m) ];
                first = w.first;
                rest = (
                  beats-neg_trans h o s.name best _ (score_of h key s) best_score w.score r.number n
                      w.number e w.first,
                  w.rest,
                );
              })
        ]

    -- The member that no member beats.
    abbrev pub IsFirst : List Server → Server → Type 0
    IsFirst pool s = Memᴰ s pool × All (LosesTo s.name (score_of h key s)) pool

    LosesTo-cast :
        (pool : List Server) {a b : String} {x y : Float64}
        → a ≡ b
        → x ≡ y
        → All (LosesTo a x) pool
        → All (LosesTo b y) pool
    LosesTo-cast pool e f l = rw (← e, ← f) l

    Rated-beats : (s : Server) → Rated s → beats h s.name (score_of h key s) "" h.neg_inf ≢ false
    unfolding beats
    Rated-beats s r l = ground (arith, r.above)

    pick_shard-IsFirst :
        (s : Server) (pool : List Server)
        → All Rated (s ∷ pool)
        → (w : Server) × IsFirst (s ∷ pool) w × (pick_shard h (s ∷ pool) key ≡ w.name)
    unfolding pick_shard
    pick_shard-IsFirst s pool r =
        let w = pick_from-Won (s ∷ pool) "" h.neg_inf o.neg_inf_number r in
        elim w.from [
          | inr (m, here, name, score) ↦
              (m, (here, LosesTo-cast (s ∷ pool) name score w.rest), name)
          | inl (name, score) ↦
              absurd (Rated-beats s r.0 (LosesTo-cast (s ∷ pool) name score w.rest).0)
        ]

    IsFirst-unique :
        (pool : List Server) (s t : Server)
        → All Rated pool
        → IsFirst pool s
        → IsFirst pool t
        → s.name ≡ t.name
    IsFirst-unique pool s t r (ms, ls) (mt, lt) =
        beats_total h o s.name t.name (score_of h key s) (score_of h key t)
          (All-at Rated s pool ms r).number (All-at Rated t pool mt r).number
          (All-at (LosesTo t.name (score_of h key t)) s pool ms lt)
          (All-at (LosesTo s.name (score_of h key s)) t pool mt ls)

    All-of : {P : Server → Type 0} (xs : List Server) → ((x : Server) → Memᴰ x xs → P x) → All P xs
    All-of [] f = tt
    All-of (x ∷ xs) f = (f x (Memᴰ.head refl), All-of xs (λ y m. f y (Memᴰ.tail m)))

    -- A member that no member beats is the one picked.
    pick_shard-first :
        (pool : List Server) (s : Server)
        → All Rated pool
        → IsFirst pool s
        → pick_shard h pool key ≡ s.name
    pick_shard-first [] s r (m, l) = absurd (Memᴰ.not-nil m)
    pick_shard-first (t ∷ pool) s r first =
        let (w, wins, e) = pick_shard-IsFirst t pool r in
        e ∙ IsFirst-unique (t ∷ pool) w s r wins first

    -- A server that joins a pool takes a key or leaves it with the server that had it, if the
    -- scores are numbers above minus infinity; no key moves between the servers that were there
    -- before.
    pub pick_shard-join :
        (new : Server) (before : List Server) (t : Server) (after : List Server)
        → All Rated before
        → All Rated (t ∷ after)
        → ((s : Server) → Memᴰ s before → Memᴰ s (t ∷ after))
        → ((s : Server) → Memᴰ s (t ∷ after) → (s ≡ new) ⊎ Memᴰ s before)
        → (pick_shard h (t ∷ after) key ≡ new.name)
          ⊎ (pick_shard h (t ∷ after) key ≡ pick_shard h before key)
    pick_shard-join new before t after r r' kept added =
        let (w, (here, loses), e) = pick_shard-IsFirst t after r' in
        elim (added w here) [
          | inl same ↦ inl (e ∙ ap (λ (s : Server). s.name) same)
          | inr old ↦
              let first : IsFirst before w = (
                old,
                All-of before (λ s m.
                    All-at (LosesTo w.name (score_of h key w)) s (t ∷ after) (kept s m) loses),
              ) in
              inr (e ∙ sym (pick_shard-first before w r first))
        ]

    -- Two pools with the same members, in whatever order, pick the same server for a key, if the
    -- scores are numbers above minus infinity.
    pub pick_shard-order :
        (p q : List Server)
        → All Rated p
        → ((s : Server) → Memᴰ s p → Memᴰ s q)
        → ((s : Server) → Memᴰ s q → Memᴰ s p)
        → pick_shard h p key ≡ pick_shard h q key
    pick_shard-order [] [] r there back = refl
    pick_shard-order [] (t ∷ q) r there back = absurd (Memᴰ.not-nil (back t (Memᴰ.head refl)))
    pick_shard-order (s ∷ p) q r there back =
        let (w, (here, loses), e) = pick_shard-IsFirst s p r in
        let rated : All Rated q = All-of q (λ x m. All-at Rated x (s ∷ p) (back x m) r) in
        let first : IsFirst q w = (
          there w here,
          All-of q (λ x m. All-at (LosesTo w.name (score_of h key w)) x (s ∷ p) (back x m) loses),
        ) in
        e ∙ sym (pick_shard-first q w rated first)
