-- ===== src/WebhookServer/ServedTargets.antt =====
-- internal/servedtargets: what the replicas of a server publish of their registries, and what the
-- operator makes of it. Texts are ASCII, so that their length in bytes is their size.
pub mod Aggregation
use declarative_conversion_o.Prelude.{
  ℕ, zero, suc, ◌+◌, ◌*◌, ◌^◌, String, Bool, true, false, ◌||◌, ◌&&◌, not, Option, none, some, List,
  [], ◌∷◌, ◌==◌, nat_eq, ltb, if◌then◌else◌, keep, map,
}
use declarative_conversion_o.Prelude.Text.{append, join, split, sort_strings, size}
use declarative_conversion_o.Prelude.Assoc.{Map, lookup, insert}
use declarative_conversion_o.Prelude.Result.{Result, ok, err}

-- compress/gzip and encoding/base64
pub record Codec : Type 0 where
  pub gzip : String → String
  pub gunzip : String → Option String
  pub to_base64 : String → String
  pub from_base64 : String → Option String

abbrev pub max_encoded_bytes : ℕ
max_encoded_bytes = 192 * 1024

abbrev pub max_decoded_bytes : ℕ
max_decoded_bytes = 1024 * 1024

-- Nanoseconds: three heartbeats of 30 s, and 5 min.
abbrev pub stale_after : ℕ
stale_after = 3 * (30 * 10 ^ 9)

abbrev pub max_clock_skew : ℕ
max_clock_skew = 5 * (60 * 10 ^ 9)

abbrev pub targets_annotation : String
targets_annotation = "conversion.terasky.com/served-targets"

abbrev pub truncated_annotation : String
truncated_annotation = "conversion.terasky.com/served-targets-truncated"

-- The first n characters, which is what io.LimitReader lets through.
abbrev pub prefix : ℕ → String → String
prefix zero s = ""
prefix (suc n) String.[] = ""
prefix (suc n) (String.◌∷◌ c s) = String.◌∷◌ c (prefix n s)

pub data DecodeError : Type 0 where
  bad_base64 bad_gzip too_large : DecodeError

-- What the code reads and writes of a Lease; an owner is the name and the UID of a pod.
pub record Lease : Type 0 where
  pub labels : Map String
  pub annotations : Map String
  pub owners : List (String × String)
  pub holder_identity : Option String
  pub lease_duration_seconds : Option ℕ
  pub renew_time : Option ℕ
  pub acquire_time : Option ℕ

-- What a lease says: nothing any more, that it cannot say, or the targets.
pub data Statement : Type 0 where
  gone unclear : Statement
  names : List String → Statement

-- The variables of the loop of `Aggregate`.
pub record Tally : Type 0 where
  pub counts : Map ℕ
  pub reporting : ℕ
  pub truncated : Bool

pub record Served : Type 0 where
  pub served : List String
  pub reporting : ℕ
  pub truncated : Bool

abbrev pub or_zero : Option ℕ → ℕ
or_zero none = 0
or_zero (some n) = n

abbrev pub count_of : String → Map ℕ → ℕ
count_of name counts = or_zero (lookup name counts)

-- counts[n]++ for each name
unfoldable pub count_names : List String → Map ℕ → Map ℕ
count_names [] counts = counts
count_names (name ∷ ns) counts = count_names ns (insert name (count_of name counts + 1) counts)

unfoldable pub count_statement : Statement → Tally → Tally
unfolding count_names
count_statement gone t = t
count_statement unclear t = record t { reporting = t.reporting + 1; truncated = true }
count_statement (names ns) t = record t {
  reporting = t.reporting + 1;
  counts = count_names ns t.counts;
}

-- The names counted n times.
unfoldable pub names_at : ℕ → Map ℕ → List String
names_at n [] = []
names_at n ((name, k) ∷ counts) =
    let rest = names_at n counts in if nat_eq k n then name ∷ rest else rest

unfoldable pub served_of : Tally → Served
unfolding names_at
served_of t =
    if t.truncated || nat_eq t.reporting 0
    then record { served = []; reporting = t.reporting; truncated = t.truncated }
    else record {
      served = sort_strings (names_at t.reporting t.counts);
      reporting = t.reporting;
      truncated = false;
    }

abbrev no_tally : Tally
no_tally = record { counts = []; reporting = 0; truncated = false }

-- A lease is live if its age is within bounds, in the past and in the future.
abbrev pub is_live : ℕ → Option ℕ → Bool
is_live now none = false
is_live now (some renewed) =
    not (ltb (renewed + stale_after) now) && not (ltb (now + max_clock_skew) renewed)

abbrev is_true_text : Option String → Bool
is_true_text none = false
is_true_text (some s) = s == "true"

abbrev text_or_empty : Option String → String
text_or_empty none = ""
text_or_empty (some s) = s

module _ (c : Codec) where
  -- The value, and whether it is left out because it is too large.
  unfoldable pub encode : List String → String × Bool
  encode targets =
      let joined = join (sort_strings targets) "\n" in
      let encoded = c.to_base64 (c.gzip joined) in
      if ltb max_encoded_bytes (size encoded) || ltb max_decoded_bytes (size joined)
      then ("", true)
      else (encoded, false)

  abbrev split_names : String → Result DecodeError (List String)
  split_names out =
      if ltb max_decoded_bytes (size out)
      then err too_large
      else if out == ""
      then ok []
      else ok (split out "\n")

  abbrev unzip : Option String → Result DecodeError (List String)
  unzip none = err bad_gzip
  unzip (some whole) = split_names (prefix (max_decoded_bytes + 1) whole)

  abbrev unpack : Option String → Result DecodeError (List String)
  unpack none = err bad_base64
  unpack (some raw) = unzip (c.gunzip raw)

  unfoldable pub decode : String → Result DecodeError (List String)
  decode value = if value == "" then ok [] else unpack (c.from_base64 value)

  abbrev pub stated : Result DecodeError (List String) → Statement
  stated (err e) = unclear
  stated (ok ns) = names ns

  -- One lease of the loop.
  unfoldable pub statement : ℕ → Lease → Statement
  unfolding decode
  statement now l =
      if is_live now l.renew_time
      then if is_true_text (lookup truncated_annotation l.annotations)
        then unclear
        else stated (decode (text_or_empty (lookup targets_annotation l.annotations)))
      else gone

  unfoldable pub tally : ℕ → List Lease → Tally → Tally
  unfolding statement count_statement
  tally now [] t = t
  tally now (l ∷ ls) t = tally now ls (count_statement (statement now l) t)

  unfoldable pub aggregate : List Lease → ℕ → Served
  unfolding tally served_of
  aggregate leases now = served_of (tally now leases no_tally)
