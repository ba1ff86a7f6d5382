-- ===== src/Group/Names.antt =====
-- What the upsert of src/group.rs does to a name that is new and to one that is there.
use naleystogramm_server.Base.{
  suc, ◌≡◌, refl, ap, inl, inr, Bool, true, false, List, [], ◌∷◌, ◌++◌, Option, none, some, Text,
  arith, Option-cases, Bool-cases, codes, text_eq_iff, any, find, find-any, any-find, find_sound,
  text_eq_refl, find-append, update_where, length, ◌==◌, if◌then◌else◌,
}
use naleystogramm_server.Tables.{
  Tables, Member, has_member_hash, is_member, renew, on_group, upsert_member, member_by_hash,
}
use naleystogramm_server.Group.{owner}

find-renewed :
    (username pubkey hash : Text) (ms : List Member) (m : Member)
    → any (has_member_hash hash) ms ≡ false
    → find (is_member username) ms ≡ some m
    → find (has_member_hash hash) (update_where (is_member username) (renew pubkey hash) ms)
      ≡ some (renew pubkey hash m)
find-renewed username pubkey hash [] m free h = cc h
find-renewed username pubkey hash (k ∷ ks) m free h = elim (Bool-cases (is_member username k)) [
  | inl own ↦ rw (own, text_eq_refl hash) (ap (λ (o : Option Member). renewed o) (found own))
  | inr other ↦ rw (other, missed) (find-renewed username pubkey hash ks m later (next other))
]
  where
    renewed : Option Member → Option Member
    renewed none = none
    renewed (some j) = some (renew pubkey hash j)

    found : is_member username k ≡ true → some k ≡ some m
    found own = ground arith

    next : is_member username k ≡ false → find (is_member username) ks ≡ some m
    next other = ground arith

    missed : has_member_hash hash k ≡ false
    missed = ground arith

    later : any (has_member_hash hash) ks ≡ false
    later = ground arith

-- The role that a join answers.
abbrev pub joining_role : List Member → Text
joining_role ms = if length ms == 0 then owner else codes "member"

-- The role of a name after a join.
abbrev pub kept_role : Text → List Member → Text
kept_role username ms = elim (find (is_member username) ms) [
  | none ↦ joining_role ms
  | some m ↦ m.role
]

found_any : {A : Type 0} (p : A → Bool) (xs : List A) (a : A) → find p xs ≡ some a → any p xs ≡ true
found_any p [] a h = cc h
found_any p (x ∷ xs) a h = ground (arith, found_any p xs a)

abbrev renewed_member : Text → Text → Text → Tables → Tables
renewed_member username pubkey hash t = record t {
  group = record t.group {
    members = update_where (is_member username) (renew pubkey hash) t.group.members;
    members_seq = suc t.group.members_seq;
  };
}

abbrev new_row : Text → Text → Text → Text → Tables → Member
new_row now username pubkey hash t = record {
  id = suc t.group.members_seq;
  username = username;
  pubkey = pubkey;
  token_hash = hash;
  role = joining_role t.group.members;
  joined_at = now;
}

abbrev new_member : Text → Text → Text → Text → Tables → Tables
new_member now username pubkey hash t = record t {
  group = record t.group {
    members = t.group.members ++ new_row now username pubkey hash t ∷ [];
    members_seq = suc t.group.members_seq;
  };
}

pub upserted :
    (now username pubkey hash : Text) (t : Tables)
    → any (has_member_hash hash) t.group.members ≡ false
    → (t' : Tables) × (upsert_member now username pubkey hash (joining_role t.group.members) t
        ≡ inr (tt, t'))
      × (member_by_hash hash t' ≡ some (username, kept_role username t.group.members))
unfolding upsert_member member_by_hash
upserted now username pubkey hash t free =
    elim (Option-cases (find (is_member username) t.group.members)) [
      | inl new ↦ (
        new_member now username pubkey hash t,
        rw (upsert_member, on_group, free, any-find (is_member username) t.group.members new) refl,
        rw
            (
              kept_role,
              new,
              member_by_hash,
              find-append (has_member_hash hash) t.group.members
                  (new_row now username pubkey hash t)
                  (find-any (has_member_hash hash) t.group.members free) (text_eq_refl hash),
            )
            refl,
      )
      | inr (m, old) ↦ (
        renewed_member username pubkey hash t,
        rw (upsert_member, on_group, free, found_any (is_member username) t.group.members m old)
            refl,
        rw
            (
              kept_role,
              old,
              member_by_hash,
              find-renewed username pubkey hash t.group.members m free old,
            )
            (ap (λ (u : Text). some (u, m.role))
              ((text_eq_iff m.username username).0
                (find_sound (is_member username) t.group.members old))),
      )
    ]
