-- ===== src/Group/Roles.antt =====
-- The members of src/group.rs: how many there are, and how many owners.
use naleystogramm_server.Config.{Config}
use naleystogramm_server.Base.{
  ℕ, suc, ◌+◌, ◌≤◌, ◌≡◌, refl, sym, ◌∙◌, ap, subst, inl, inr, ◌⊎◌, Bool, true, false, List, [], ◌∷◌,
  ◌++◌, Text, arith, codes, text_eq, any, count_where, count_where-append, count_where-update_where,
  count_where-delete_where, length-delete_where, length, length-append, length-update_where, ltb,
  ◌==◌, Bool-cases,
}
use naleystogramm_server.Error.{DbError}
use naleystogramm_server.Tables.{
  Tables, Member, Setting, Statement, upsert_member, delete_member, insert_message, trim_messages,
  insert_setting, has_member_hash, is_member, renew,
}
use naleystogramm_server.Tables.Kept.{Leaves}
use naleystogramm_server.State.{new}
use naleystogramm_server.Action.{query, later_faults}
use naleystogramm_server.Action.Preserves.{Preserves, Preserves-query, preserves_rules}
use naleystogramm_server.Group.{owner}
use naleystogramm_server.Group.Joins.{broadcast-Preserves}
use naleystogramm_server.Group.Names.{joining_role}
use naleystogramm_server.Group.Sockets.{Socket, post}

abbrev pub is_owner : Member → Bool
is_owner m = text_eq m.role owner

-- With `spare` places left, where there is a limit.
abbrev pub HasRoom : ℕ → Config → List Member → Type 0
HasRoom spare c ms = ltb 0 c.group.max_members ≡ true → length ms + spare ≤ c.group.max_members

-- The database fails nothing, and the members have at most one owner and that much room.
pub record Held (spare : ℕ) (fs : List Bool) (c : Config) (t : Tables) : Type 0 where
  pub no_faults : fs ≡ []
  pub owners : count_where is_owner t.group.members ≤ 1
  pub room : HasRoom spare c t.group.members

abbrev pub HasMembers : List Member → Tables → Type 0
HasMembers ms t = t.group.members ≡ ms

pub later-Held :
    (spare : ℕ) (fs : List Bool) (c : Config) (t : Tables)
    → Held spare fs c t
    → Held spare (later_faults fs) c t
later-Held spare fs c t h = record {
  no_faults = ap later_faults h.no_faults;
  owners = h.owners;
  room = h.room;
}

joined_owners :
    (ms : List Member) (m : Member)
    → m.role ≡ joining_role ms
    → count_where is_owner ms ≤ 1
    → count_where is_owner (ms ++ m ∷ []) ≤ 1
unfolding text_eq
joined_owners [] m e h = ground arith
joined_owners (k ∷ ks) m e h =
    let counted : (suc (length ks) == 0) ≡ false = ground arith in
    let role : joining_role (k ∷ ks) ≡ codes "member" = rw counted refl in
    let miss : is_owner m ≡ false = ap (λ r. text_eq r owner) (e ∙ role) in
    ground (arith, count_where-append is_owner (k ∷ ks) (m ∷ []), miss)

-- The upsert of a join, which counts the members first.
pub upsert_member-Held :
    (now username pubkey hash : Text) (c : Config) (t : Tables)
    → Held 1 [] c t
    → Leaves (Held 0 [] c) (upsert_member now username pubkey hash (joining_role t.group.members) t)
unfolding upsert_member
upsert_member-Held now username pubkey hash c t h =
    elim (Bool-cases (any (has_member_hash hash) t.group.members)) [
      | inl taken ↦ rw (taken, Leaves) tt
      | inr free ↦
          rw (free, Leaves)
            (elim (Bool-cases (any (is_member username) t.group.members)) [
              | inl old ↦
                  rw (old, Leaves)
                    (record {
                      no_faults = refl;
                      owners =
                          subst (λ n. n ≤ 1)
                            (sym (
                              count_where-update_where is_owner (is_member username)
                                (renew pubkey hash) t.group.members (λ m. refl)))
                            h.owners;
                      room = λ limited.
                          subst (λ n. n + 0 ≤ c.group.max_members)
                            (sym (
                              length-update_where (is_member username) (renew pubkey hash)
                                t.group.members))
                            (omega (arith, h.room limited));
                    })
              | inr new ↦
                  rw (new, Leaves)
                    (record {
                      no_faults = refl;
                      owners = joined_owners t.group.members _ refl h.owners;
                      room = λ limited.
                          omega (arith, h.room limited, length-append t.group.members (_ ∷ []));
                    })
            ])
    ]

-- Statements that leave the members.
pub insert_setting-members :
    (key value : Text) (t : Tables)
    → Leaves (HasMembers t.group.members) (insert_setting key value t)
unfolding insert_setting
insert_setting-members key value t =
    elim (Bool-cases (any (λ (r : Setting). text_eq r.key key) t.group.settings)) [
      | inl taken ↦ rw (taken, Leaves) tt
      | inr free ↦ rw (free, Leaves) refl
    ]

module _ (spare : ℕ) where
  pub leaves :
      {A : Type 0} (q : Statement A)
      → ((t : Tables) → Leaves (HasMembers t.group.members) (q t))
      → Preserves (Held spare) (query q)
  leaves {A} q same =
      Preserves-query q λ fs c t h. (later-Held spare fs c t h, go fs c t (q t) h (same t))
    where
      go :
          (fs : List Bool) (c : Config) (t : Tables) (r : DbError ⊎ (A × Tables))
          → Held spare fs c t
          → Leaves (HasMembers t.group.members) r
          → Leaves (Held spare (later_faults fs) c) r
      go fs c t (inl e) h l = tt
      go fs c t (inr (a, t')) h l = record {
        no_faults = ap later_faults h.no_faults;
        owners = subst (λ ms. count_where is_owner ms ≤ 1) (sym l) h.owners;
        room = subst (HasRoom spare c) (sym l) h.room;
      }

pub delete_member-Held : (username : Text) → Preserves (Held 0) (query (delete_member username))
unfolding delete_member
delete_member-Held username = Preserves-query (delete_member username) λ fs c t h. (
  later-Held 0 fs c t h,
  record {
    no_faults = ap later_faults h.no_faults;
    owners =
        omega
          (arith, h.owners, count_where-delete_where is_owner (is_member username) t.group.members);
    room = λ limited.
        omega (arith, h.room limited, length-delete_where (is_member username) t.group.members);
  },
)

insert_message-Held :
    (sender content : Text) (ts : ℕ) → Preserves (Held 0) (query (insert_message sender content ts))
unfolding insert_message
insert_message-Held sender content ts = leaves 0 (insert_message sender content ts) (λ t. refl)

trim_messages-Held : (limit : ℕ) → Preserves (Held 0) (query (trim_messages limit))
unfolding trim_messages
trim_messages-Held limit = leaves 0 (trim_messages limit) (λ t. refl)

pub post-Held : (ts : ℕ) (k : Socket) (content : Text) → Preserves (Held 0) (post ts k content)
unfolding post
post-Held ts k content =
    search (preserves_rules, insert_message-Held, trim_messages-Held, broadcast-Preserves) depth 12

-- A place is left, so the places are left.
pub spare_Held : (fs : List Bool) (c : Config) (t : Tables) → Held 1 fs c t → Held 0 fs c t
spare_Held fs c t h = record {
  no_faults = h.no_faults;
  owners = h.owners;
  room = λ limited. omega (arith, h.room limited);
}
