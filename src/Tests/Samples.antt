-- ===== src/Tests/Samples.antt =====
-- A small world in which the theorems are tried: its calendar writes a day and a second as one
-- character each, its hash and its encodings change nothing.
use naleystogramm_server.Base.{
  ℕ, ◌*◌, ◌-◌, ◌/◌, ◌%◌, ◌≤◌, ◌<◌, ◌≡◌, inr, true, false, not, List, [], ◌∷◌, ◌++◌, map, Option,
  none, some, Text, codes, text_ltb, arith, ◌==◌, length, leb, if◌then◌else◌,
}
use naleystogramm_server.Extern.{Calendar, Extern}
use naleystogramm_server.Config.{Config}
use naleystogramm_server.Tables.{User, Presence, Token, Invite, Tables}
use naleystogramm_server.State.{AppState}
use naleystogramm_server.Discovery.Requests.{Request}
use naleystogramm_server.Discovery.Register.{RegisterReq}
use naleystogramm_server.Discovery.Directory.{fold_case}

abbrev pub sample_minutes_ago : ℕ → ℕ → Option Text
sample_minutes_ago now m =
    if leb (60 * m) now
    then some (((now - 60 * m) / 86400 ∷ []) ++ b' ' ∷ (now - 60 * m) % 86400 ∷ [])
    else none

pub date_lt-sample :
    (d e : ℕ) (s t : Text) → d < e → text_ltb ((d ∷ []) ++ s) ((e ∷ []) ++ t) ≡ true
unfolding text_ltb
date_lt-sample d e s t h = ground arith

pub time_lt-sample : (s t : ℕ) → s < t → text_ltb (s ∷ []) (t ∷ []) ≡ true
unfolding text_ltb
time_lt-sample s t h = ground arith

pub minutes_ago-sample :
    (now m : ℕ)
    → 60 * m ≤ now
    → sample_minutes_ago now m
      ≡ some (((now - 60 * m) / 86400 ∷ []) ++ b' ' ∷ (now - 60 * m) % 86400 ∷ [])
minutes_ago-sample now m h = ground arith

abbrev pub calendar : Calendar
calendar = record {
  date = λ d. d ∷ [];
  time = λ t. t ∷ [];
  rfc3339_time = λ t. t ∷ codes "+00:00";
  minutes_ago = sample_minutes_ago;
  four_digit_days = 2932897;
  max_utc = 8210266876799;
  date_lt = λ d e s t h written. date_lt-sample d e s t h;
  time_lt = λ s t h day. time_lt-sample s t h;
  minutes_ago_lem = λ now m h written. minutes_ago-sample now m h;
}

abbrev pub world : Extern
world = record {
  calendar = calendar;
  semver = record { Version = ℕ; parse = λ t. some (length t); ge = λ a b. leb b a };
  sha256 = λ t. t;
  hex_encode = λ bs. bs;
  b64_decode = some;
  b64_encode = λ bs. bs;
  regex = λ pattern. inr (λ t. true);
  to_lowercase = λ t. map fold_case t;
  is_ip_addr = λ t. not (length t == 0);
}

abbrev pub config : Config
config = record {
  server = record {
    port = 8443;
    name = codes "naleys.example";
    description = codes "a server";
    public = true;
  };
  registration = record {
    is_open = false;
    require_email = true;
    require_invite = false;
    max_users = 3;
    username_min_length = 3;
    username_max_length = 32;
    username_regex = codes "^[a-zA-Z0-9_]+$";
  };
  tokens = record { ttl_days = 90; max_per_user = 5 };
  storage = record { driver = codes "sqlite"; path = codes "data.db"; url = [] };
  presence = record { offline_after_minutes = 30; ip_update_interval_seconds = 300 };
  compatibility = record { min_client_version = codes "0.0.0" };
  relay = record {
    enabled = true;
    max_sessions = 100;
    session_timeout_seconds = 300;
    max_session_bytes = 1_000_000;
  };
  group = record {
    name = codes "group";
    description = [];
    max_members = 100;
    invite_only = false;
    history = true;
    history_limit = 1000;
    allow_file_relay = false;
    broadcast_only = false;
  };
}

-- Ann has invited bob, and has another invite to give.
abbrev pub ann : User
ann = record {
  id = 1;
  username = codes "Ann";
  username_lc = codes "ann";
  pubkey = codes "A";
  email = none;
  created_at = 20_000 ∷ b' ' ∷ 5 ∷ [];
}

abbrev pub bob : User
bob = record {
  id = 2;
  username = codes "bob";
  username_lc = codes "bob";
  pubkey = codes "B";
  email = none;
  created_at = 20_000 ∷ b' ' ∷ 9 ∷ [];
}

abbrev pub presence_of : ℕ → Presence
presence_of i = record {
  user_id = i;
  ip = codes "10.0.0.1";
  port = 5000;
  last_seen = 20_000 ∷ b' ' ∷ 9 ∷ [];
}

abbrev pub token_of : ℕ → Text → Token
token_of i hash = record {
  id = i;
  user_id = i;
  token_hash = hash;
  created_at = 20_000 ∷ b' ' ∷ 9 ∷ [];
  expires_at = none;
}

abbrev pub used_invite : Invite
used_invite = record {
  code = codes "AAAA-BBBB";
  created_by = some 1;
  used_by = some 2;
  created_at = 20_000 ∷ b' ' ∷ 6 ∷ [];
  used_at = some (20_000 ∷ b' ' ∷ 9 ∷ []);
}

abbrev pub open_invite : Invite
open_invite = record {
  code = codes "CCCC-DDDD";
  created_by = some 1;
  used_by = none;
  created_at = 20_000 ∷ b' ' ∷ 7 ∷ [];
  used_at = none;
}

abbrev pub tables : Tables
tables = record {
  users = ann ∷ bob ∷ [];
  users_seq = 2;
  presence = presence_of 1 ∷ presence_of 2 ∷ [];
  tokens = token_of 1 (codes "naleys_a") ∷ token_of 2 (codes "naleys_b") ∷ [];
  tokens_seq = 2;
  invites = used_invite ∷ open_invite ∷ [];
  relay_sessions = [];
  group = record { members = []; members_seq = 0; messages = []; messages_seq = 0; settings = [] };
}

abbrev pub state : AppState
state = record {
  pool = tables;
  faults = [];
  config = config;
  mode = codes "discovery";
  min_version = codes "0.0.0";
  rate_limiter = record { register = []; lookup = [] };
  relay_init = [];
  relay_pending = [];
  group_conns = [];
  group_queues = [];
  next_channel = 0;
}

-- A request of address 7 on the day 20_000, with a token of its own.
abbrev pub request : Text → Request
request token = record {
  addr = 7;
  instant = 1_000;
  now = 1_728_000_100;
  authorization = some (codes "Bearer " ++ token);
}

abbrev pub random : List ℕ
random = codes "0123"

abbrev pub carol : RegisterReq
carol = record {
  username = codes "Carol";
  pubkey = codes "0123456789abcdef0123456789abcdef";
  ip = codes "10.0.0.3";
  port = 5001;
  port_bound = omega arith;
  email = some (codes "carol@example.org");
  invite_code = some (codes "CCCC-DDDD");
  client_version = some (codes "0.3.1");
}
