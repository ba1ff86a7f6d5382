-- ===== src/Group/Posts.antt =====
-- What the requests and a post of src/group.rs do to the table of the messages.
use naleystogramm_server.Base.{
  ℕ, ◌≡◌, refl, sym, ◌∙◌, ap, inl, inr, ◌⊎◌, Bool, List, [], ◌∷◌, ◌++◌, map, Text, text_eq, any,
  delete_where, suc, Bool-cases,
}
use naleystogramm_server.Config.{Config}
use naleystogramm_server.Error.{DbError}
use naleystogramm_server.Frames.{Post}
use naleystogramm_server.Tables.{
  Tables, Statement, upsert_member, delete_member, insert_message, insert_setting, Message,
  has_member_hash, is_member, Setting, trim_messages, is_old,
}
use naleystogramm_server.Tables.Kept.{Leaves}
use naleystogramm_server.State.{AppState, new}
use naleystogramm_server.Action.{query, ◌>>=◌, later_faults}
use naleystogramm_server.Action.Rules
use naleystogramm_server.Action.Rules.{calm}
use naleystogramm_server.Action.Preserves.{Preserves, OnTables, Preserves-query}
use naleystogramm_server.Group.{GroupExtern, post_of}
use naleystogramm_server.Group.Broadcast.{broadcast}
use naleystogramm_server.Group.Joins.{group_join-Preserves}
use naleystogramm_server.Group.Kept.{IsKept}
use naleystogramm_server.Group.Sockets.{Socket, post}
use naleystogramm_server.Group.Valid.{
  IsGroupValid, IsIncreasing, upsert_member-IsGroupValid, delete_member-IsGroupValid,
  insert_message-IsGroupValid, trim_messages-IsGroupValid, insert_setting-IsGroupValid,
}
use naleystogramm_server.Group.Recent.{last_n, last_n-append, last_n-map, delete_where-is_old}
use mathlib.Core.List.{map-append}

-- The table holds the last posts of a log, and the database fails nothing.
pub record Logged (C : Config) (l : List Post) (fs : List Bool) (c : Config) (t : Tables)
    : Type 0 where
  pub no_faults : fs ≡ []
  pub same : c ≡ C
  pub valid : IsGroupValid t.group
  pub kept : map post_of t.group.messages ≡ last_n C.group.history_limit l

Leaves-and :
    {A : Type 0} (P Q : Tables → Type 0) (r : DbError ⊎ (A × Tables))
    → Leaves P r
    → Leaves Q r
    → Leaves (λ t. P t × Q t) r
Leaves-and P Q (inl e) p q = tt
Leaves-and P Q (inr (a, t)) p q = (p, q)

Leaves-map :
    {A : Type 0} (P Q : Tables → Type 0) (r : DbError ⊎ (A × Tables))
    → ((t : Tables) → P t → Q t)
    → Leaves P r
    → Leaves Q r
Leaves-map P Q (inl e) f p = tt
Leaves-map P Q (inr (a, t)) f p = f t p

abbrev HasMessages : List Message → Tables → Type 0
HasMessages ms t = t.group.messages ≡ ms

module _ (C : Config) (l : List Post) where
  later-Logged :
      (fs : List Bool) (c : Config) (t : Tables)
      → Logged C l fs c t
      → Logged C l (later_faults fs) c t
  later-Logged fs c t h = record {
    no_faults = ap later_faults h.no_faults;
    same = h.same;
    valid = h.valid;
    kept = h.kept;
  }

  leaves :
      {A : Type 0} (q : Statement A)
      → ((t : Tables) → IsGroupValid t.group → Leaves (λ t'. IsGroupValid t'.group) (q t))
      → ((t : Tables) → Leaves (HasMessages t.group.messages) (q t))
      → Preserves (Logged C l) (query q)
  leaves q valid same = Preserves-query q λ fs c t h. (
    later-Logged fs c t h,
    Leaves-map _ _ (q t)
        (λ t' k. record {
          no_faults = ap later_faults h.no_faults;
          same = h.same;
          valid = k.0;
          kept = ap (map post_of) k.1 ∙ h.kept;
        })
        (Leaves-and _ _ (q t) (valid t h.valid) (same t)),
  )

upsert_member-messages :
    (now username pubkey hash role : Text) (t : Tables)
    → Leaves (HasMessages t.group.messages) (upsert_member now username pubkey hash role t)
unfolding upsert_member
upsert_member-messages now username pubkey hash role t =
    elim (Bool-cases (any (has_member_hash hash) t.group.members)) [
      | inl taken ↦ rw (taken, Leaves) tt
      | inr free ↦
          rw (free, Leaves)
            (elim (Bool-cases (any (is_member username) t.group.members)) [
              | inl old ↦ rw (old, Leaves) refl
              | inr new ↦ rw (new, Leaves) refl
            ])
    ]

insert_setting-messages :
    (key value : Text) (t : Tables)
    → Leaves (HasMessages t.group.messages) (insert_setting key value t)
unfolding insert_setting
insert_setting-messages key value t =
    elim (Bool-cases (any (λ (r : Setting). text_eq r.key key) t.group.settings)) [
      | inl taken ↦ rw (taken, Leaves) tt
      | inr free ↦ rw (free, Leaves) refl
    ]

delete_member-messages :
    (username : Text) (t : Tables)
    → Leaves (HasMessages t.group.messages) (delete_member username t)
unfolding delete_member
delete_member-messages username t = refl

module _ (x : GroupExtern) (C : Config) where
  pub quiet : (l : List Post) → IsKept (Logged C l) x
  quiet l = record {
    later = later-Logged C l;
    join =
        group_join-Preserves (Logged C l) x (later-Logged C l)
          (λ now username pubkey hash role.
            leaves C l _ (upsert_member-IsGroupValid now username pubkey hash role)
              (upsert_member-messages now username pubkey hash role))
          (λ key value.
            leaves C l _ (insert_setting-IsGroupValid key value)
              (insert_setting-messages key value));
    delete = λ username.
        leaves C l _ (delete_member-IsGroupValid username) (delete_member-messages username);
  }

-- The table after a post.
trimmed :
    (n : ℕ) (ms : List Message) (m : Message) (l : List Post)
    → IsIncreasing (ms ++ m ∷ [])
    → map post_of ms ≡ last_n n l
    → map post_of (delete_where (is_old n (ms ++ m ∷ [])) (ms ++ m ∷ []))
      ≡ last_n n (l ++ post_of m ∷ [])
trimmed n ms m l ids h =
    ap (map post_of) (delete_where-is_old n (ms ++ m ∷ []) ids)
    ∙ sym (last_n-map post_of n (ms ++ m ∷ []))
    ∙ ap (last_n n) (map-append post_of ms (m ∷ []) ∙ ap (λ (k : List Post). k ++ post_of m ∷ []) h)
    ∙ last_n-append n l (post_of m)

abbrev pub a_post : ℕ → Socket → Text → Post
a_post ts k content = record { sender = k.username; content = content; ts = ts }

abbrev with_message : ℕ → Socket → Text → Tables → Tables
with_message ts k content t = record t {
  group = record t.group {
    messages =
        t.group.messages
        ++ record { id = suc t.group.messages_seq; sender = k.username; content = content; ts = ts }
          ∷ [];
    messages_seq = suc t.group.messages_seq;
  };
}

pub post-Logged :
    (C : Config) (l : List Post) (ts : ℕ) (k : Socket) (content : Text) (s : AppState)
    → Logged C l [] s.config s.pool
    → Rules.Post
        (λ _ s'. OnTables (Logged C (l ++ a_post ts k content ∷ [])) s')
        (λ _ s'. OnTables (Logged C (l ++ a_post ts k content ∷ [])) s')
        (post ts k content (calm s))
unfolding post query insert_message trim_messages broadcast ◌>>=◌
post-Logged C l ts k content s h =
    let t = with_message ts k content s.pool in
    let v : IsGroupValid t.group =
      insert_message-IsGroupValid k.username content ts s.pool h.valid in
    record {
      no_faults = refl;
      same = h.same;
      valid = trim_messages-IsGroupValid s.config.group.history_limit t v;
      kept =
          rw h.same (trimmed C.group.history_limit s.pool.group.messages _ l v.message_ids h.kept);
    }
