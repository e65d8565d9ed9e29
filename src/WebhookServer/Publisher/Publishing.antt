-- ===== src/WebhookServer/Publisher/Publishing.antt =====
-- internal/webhookserver/publisher.go and internal/servedtargets: what readers make of a published
-- lease.
use Prim.Native.Char.{Char}
use declarative_conversion_o.Prelude.{
  ℕ, zero, suc, ◌+◌, ◌≤◌, String, ◌≡◌, refl, ap, ◌∙◌, true, false, ◌||◌, none, some, List, [], ◌∷◌,
  ◌==◌, inl, inr, arith, Bool-cases, All, ltb, or-false, if◌then◌else◌, is_empty,
}
use declarative_conversion_o.Prelude.Text.{join, split, size, sort_strings}
use declarative_conversion_o.Prelude.Text.Splitting.{Lacks, split-join}
use declarative_conversion_o.Prelude.Assoc.{Map, lookup, insert, lookup-insert, lookup-remove}
use declarative_conversion_o.Prelude.Result.{Result, ok}
use declarative_conversion_o.WebhookServer.ServedTargets.{
  Codec, Lease, DecodeError, unclear, names, prefix, is_live, encode, decode, stated, statement,
  max_decoded_bytes, max_encoded_bytes, targets_annotation, truncated_annotation,
}
use declarative_conversion_o.WebhookServer.Publisher.{Publisher, stamp, stamp_annotations}

-- gzip and base64 take back what they make, and what they make is not empty.
pub record IsFaithful (c : Codec) : Type 0 where
  pub unzips : (s : String) → c.gunzip (c.gzip s) ≡ some s
  pub decodes : (s : String) → c.from_base64 (c.to_base64 s) ≡ some s
  pub non_empty : (s : String) → (c.to_base64 (c.gzip s) == "") ≡ false

abbrev pub newline : Char
newline = "\n"

prefix_all : (n : ℕ) (s : String) → size s ≤ n → prefix n s ≡ s
prefix_all zero String.[] h = refl
prefix_all zero (String.◌∷◌ ch s) h = absurd (omega (arith, h))
prefix_all (suc n) String.[] h = refl
prefix_all (suc n) (String.◌∷◌ ch s) h = ap (String.◌∷◌ ch) (prefix_all n s (omega (arith, h)))

-- The text of the joined names, read back.
names_back :
    (ns : List String)
    → All (Lacks newline) ns
    → (join ns "\n" == "") ≡ is_empty ns
    → ◌≡◌ {A = Result DecodeError (List String)}
        (if join ns "\n" == "" then ok [] else ok (split (join ns "\n") "\n"))
        (ok ns)
names_back [] lacks filled = rw filled refl
names_back (n ∷ ns) lacks filled = rw (filled, split-join newline n ns lacks) refl

marked :
    (encoded : String) (m : Map String)
    → lookup truncated_annotation (stamp_annotations encoded true m) ≡ some "true"
unfolding stamp_annotations
marked encoded m = lookup-insert truncated_annotation truncated_annotation "true" _

unmarked :
    (encoded : String) (m : Map String)
    → lookup truncated_annotation (stamp_annotations encoded false m) ≡ none
unfolding stamp_annotations
unmarked encoded m = lookup-remove truncated_annotation truncated_annotation _

kept :
    (encoded : String) (m : Map String)
    → lookup targets_annotation (stamp_annotations encoded false m) ≡ some encoded
unfolding stamp_annotations
kept encoded m =
    lookup-remove truncated_annotation targets_annotation (insert targets_annotation encoded m)
    ∙ lookup-insert targets_annotation targets_annotation encoded m

module _ (c : Codec) (faithful : IsFaithful c) where
  -- Names without line breaks, of which not just the empty one is there, are read back sorted, if
  -- they are not too large to be published.
  decode-encode :
      (targets : List String)
      → (encode c targets).1 ≡ false
      → All (Lacks newline) (sort_strings targets)
      → (join (sort_strings targets) "\n" == "") ≡ is_empty (sort_strings targets)
      → decode c (encode c targets).0 ≡ ok (sort_strings targets)
  unfolding encode decode
  decode-encode targets fits lacks filled =
      let joined = join (sort_strings targets) "\n" in
      elim (Bool-cases (
        ltb max_encoded_bytes (size (c.to_base64 (c.gzip joined)))
        || ltb max_decoded_bytes (size joined))) [
          | inl e ↦ cc (rw e at fits)
          | inr e ↦
              let (_, small) =
                or-false (ltb max_encoded_bytes (size (c.to_base64 (c.gzip joined))))
                  (ltb max_decoded_bytes (size joined)) e in
              let whole : prefix (max_decoded_bytes + 1) joined ≡ joined =
                prefix_all (max_decoded_bytes + 1) joined (ground arith) in
              rw
                (
                  e,
                  faithful.non_empty joined,
                  faithful.decodes (c.gzip joined),
                  faithful.unzips joined,
                  whole,
                  small,
                )
                (names_back (sort_strings targets) lacks filled)
        ]

  -- A reader for whom the lease is still live finds in it the targets of the replica, sorted, or
  -- that the replica cannot say, where they were too large to be published.
  pub statement-stamp :
      (p : Publisher) (targets : List String) (written read : ℕ) (l : Lease)
      → is_live read (some written) ≡ true
      → All (Lacks newline) (sort_strings targets)
      → (join (sort_strings targets) "\n" == "") ≡ is_empty (sort_strings targets)
      → statement c read (stamp p (encode c targets).0 (encode c targets).1 written l)
        ≡ (if (encode c targets).1 then unclear else names (sort_strings targets))
  unfolding statement stamp
  statement-stamp p targets written read l alive lacks filled =
      elim (Bool-cases (encode c targets).1) [
        | inl e ↦ rw (alive, e, marked) refl
        | inr e ↦
            rw (alive, e, unmarked, kept) (ap (stated c) (decode-encode targets e lacks filled))
      ]
