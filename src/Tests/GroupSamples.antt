-- ===== src/Tests/GroupSamples.antt =====
-- A group in the sample world: a toy cipher with the laws of the real one, and some events.
use naleystogramm_server.Base.{
  ℕ, ◌+◌, ◌≡◌, refl, sym, ◌∙◌, ap, inr, ◌⊎◌, true, List, [], ◌∷◌, ◌++◌, some, Text, codes, arith,
  length, drop, drop-append,
}
use naleystogramm_server.Frames.{Incoming}
use naleystogramm_server.Group.{GroupExtern, JoinReq, Dice}
use naleystogramm_server.Group.Sealing.{Crypto}
use naleystogramm_server.Group.Runs.{Event, call, connect, incoming, recv}
use naleystogramm_server.Group.Runs
use naleystogramm_server.Tests.Samples.{world, request}
use mathlib.Core.Sum.{inr-injective}

abbrev pub sums : List ℕ → List ℕ → List ℕ
sums [] ys = []
sums (x ∷ xs) [] = []
sums (x ∷ xs) (y ∷ ys) = (x + y) ∷ sums xs ys

pub sums_comm : (xs ys : List ℕ) → sums xs ys ≡ sums ys xs
sums_comm [] [] = refl
sums_comm [] (y ∷ ys) = refl
sums_comm (x ∷ xs) [] = refl
sums_comm (x ∷ xs) (y ∷ ys) =
    ap (λ (n : ℕ). n ∷ sums xs ys) (omega arith)
    ∙ ap (λ (l : List ℕ). (y + x) ∷ l) (sums_comm xs ys)

pub toy_decrypt :
    (key nonce plain cipher : List ℕ)
    → ◌≡◌ {A = Text ⊎ List ℕ} (inr (key ++ plain)) (inr cipher)
    → some (drop (length key) cipher) ≡ some plain
toy_decrypt key nonce plain cipher e =
    ap (λ (c : List ℕ). some (drop (length key) c)) (sym (inr-injective _ _ e))
    ∙ ap some (drop-append key plain)

abbrev pub crypto : Crypto
crypto = record {
  public_of = λ a. a;
  diffie_hellman = sums;
  hkdf_expand = λ ikm info n. inr ikm;
  encrypt = λ key nonce plain. inr (key ++ plain);
  decrypt = λ key nonce cipher. some (drop (length key) cipher);
  public_of-length = λ a h. h;
  diffie_hellman-comm = sums_comm;
  decrypt-encrypt = toy_decrypt;
}

abbrev pub group_world : GroupExtern
group_world = record {
  base = world;
  crypto = crypto;
  describe = λ e. codes "db";
  describe_b64 = λ t. t;
}

abbrev pub ann_key : List ℕ
ann_key = codes "0123456789abcdef0123456789abcdef"

abbrev pub bob_key : List ℕ
bob_key = codes "fedcba9876543210fedcba9876543210"

abbrev pub ann_dice : Dice
ann_dice = record {
  key = codes "kkkkkkkkkkkkkkkkkkkkkkkkkkkkkkkk";
  ephemeral = codes "eeeeeeeeeeeeeeeeeeeeeeeeeeeeeeee";
  nonce = codes "nnnnnnnnnnnn";
  token = codes "01";
}

abbrev pub bob_dice : Dice
bob_dice = record {
  key = codes "llllllllllllllllllllllllllllllll";
  ephemeral = codes "ffffffffffffffffffffffffffffffff";
  nonce = codes "mmmmmmmmmmmm";
  token = codes "02";
}

abbrev pub ann_joins : JoinReq
ann_joins = record { username = codes "ann"; pubkey = ann_key }

abbrev pub bob_joins : JoinReq
bob_joins = record { username = codes "bob"; pubkey = bob_key }

-- Ann joins, connects and posts, then bob joins.
abbrev pub events : List Event
events =
    call (Runs.Endpoint.join ann_dice ann_joins) (request [])
    ∷ connect (some (codes "naleys_01"))
    ∷ incoming 0 1_728_000_100
        (Incoming.text (some (record { kind = some (codes "msg"); content = some (codes "hi") })))
    ∷ recv 0 true
    ∷ call (Runs.Endpoint.join bob_dice bob_joins) (request [])
    ∷ incoming 0 1_728_000_200 Incoming.other
    ∷ []
