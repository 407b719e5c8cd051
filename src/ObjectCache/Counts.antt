-- ===== src/ObjectCache/Counts.antt =====
-- The counts of users that object_cache.py keeps.
use radical_utils.Prelude.{
  ℕ, suc, ◌-◌, ◌<◌, ◌≡◌, refl, ap, ◌∙◌, String, true, false, Option, none, some, arith, ◌==◌,
}
use radical_utils.Prelude.Eq.{string_eq}
use radical_utils.Prelude.Dict.{
  Dict, lookup, insert, lookup-insert, lookup-insert_self, lookup-remove,
}
use radical_utils.ObjectCache.{
  Entry, Cache, gave, found, raised, assertion, default_ns, space, set_space, get_obj, drop_user,
  rem_entry, find_oid, after_removal, remove_or_delay, rem_obj,
}

rem_obj_known :
    (obj : ℕ) (oid : String) (c : Cache) (objs : Dict String Entry) (e : Entry)
    → c.timeout ≡ 0
    → lookup default_ns c.spaces ≡ some objs
    → find_oid obj objs ≡ some oid
    → lookup oid objs ≡ some e
    → rem_obj obj default_ns c ≡ (set_space default_ns (drop_user oid e objs) c, found true)
unfolding rem_obj remove_or_delay rem_entry after_removal
rem_obj_known obj oid c objs e now there which hit = ground arith

space-set_space :
    (ns : String) (objs : Dict String Entry) (c : Cache) → space (set_space ns objs c) ns ≡ objs
unfolding space
space-set_space ns objs c = rw (lookup-insert_self ns objs c.spaces, space)

-- Dropping the user that was just added gives the entries as they were.
drop-added :
    (oid : String) (e : Entry) (objs : Dict String Entry) (k : String)
    → 0 < e.cnt
    → lookup oid objs ≡ some e
    → lookup k (
        drop_user oid
          (record e { cnt = suc e.cnt })
          (insert oid (record e { cnt = suc e.cnt }) objs))
      ≡ lookup k objs
unfolding drop_user
drop-added oid e objs k pos hit =
    let kept : ((suc e.cnt - 1) == 0) ≡ false = ground arith in
    let back : suc e.cnt - 1 ≡ e.cnt = omega arith in
    rw (kept, back)
      (ground (
        arith,
        string_eq.beq_iff oid k,
        lookup-insert oid k e (insert oid (record e { cnt = suc e.cnt }) objs),
        lookup-insert oid k (record e { cnt = suc e.cnt }) objs,
      ))

drop-new :
    (oid : String) (obj : ℕ) (objs : Dict String Entry) (k : String)
    → lookup oid objs ≡ none
    → lookup k (
        drop_user oid
          (record { cnt = 1; obj = obj })
          (insert oid (record { cnt = 1; obj = obj }) objs))
      ≡ lookup k objs
unfolding drop_user
drop-new oid obj objs k miss = ground (
  arith,
  string_eq.beq_iff oid k,
  lookup-remove oid k (insert oid (record { cnt = 1; obj = obj }) objs),
  lookup-insert oid k (record { cnt = 1; obj = obj }) objs,
)

module _ (oid : String) (obj : ℕ) (c : Cache) (at_once : c.timeout ≡ 0) where
  -- The entries that `get_obj` leaves: the same but for one user more.
  got_known :
      (e : Entry)
      → lookup oid (space c default_ns) ≡ some e
      → (creator : Option ℕ)
      → get_obj oid creator default_ns c ≡ (
        set_space default_ns (insert oid (record e { cnt = suc e.cnt }) (space c default_ns)) c,
        gave e.obj,
      )
  unfolding get_obj
  got_known e hit creator = ground arith

  got_new :
      lookup oid (space c default_ns) ≡ none
      → get_obj oid (some obj) default_ns c ≡ (
        set_space default_ns (insert oid (record { cnt = 1; obj = obj }) (space c default_ns)) c,
        gave obj,
      )
  unfolding get_obj
  got_new miss = ground arith

  -- In the default namespace and with immediate removal, `rem_obj` undoes a `get_obj` that found
  -- its object, if the object is kept under no earlier id and has a user: every entry of the
  -- namespace has the count that it had before.
  pub rem_obj-get_obj :
      (e : Entry) (creator : Option ℕ)
      → lookup oid (space c default_ns) ≡ some e
      → 0 < e.cnt
      → find_oid e.obj (insert oid (record e { cnt = suc e.cnt }) (space c default_ns)) ≡ some oid
      → let (c', reply) = rem_obj e.obj default_ns (get_obj oid creator default_ns c).0 in
        (reply ≡ found true)
        × ((k : String) → lookup k (space c' default_ns) ≡ lookup k (space c default_ns))
  rem_obj-get_obj e creator hit pos which =
      let e' : Entry = record e { cnt = suc e.cnt } in
      let objs' = insert oid e' (space c default_ns) in
      let c₁ = set_space default_ns objs' c in
      let removed =
        rem_obj_known e.obj oid c₁ objs' e' at_once (lookup-insert_self default_ns objs' c.spaces)
          which (lookup-insert_self oid e' (space c default_ns)) in
      rw (got_known e hit creator, removed)
        (
          refl,
          λ k.
              ap (lookup k) (space-set_space default_ns (drop_user oid e' objs') c₁)
              ∙ drop-added oid e (space c default_ns) k pos hit,
        )

  -- With immediate removal, `rem_obj` undoes a `get_obj` that created its object, if the object
  -- is kept under no earlier id: no entry is left for it, and the other entries are as before.
  pub rem_obj-created :
      lookup oid (space c default_ns) ≡ none
      → find_oid obj (insert oid (record { cnt = 1; obj = obj }) (space c default_ns)) ≡ some oid
      → let (c', reply) = rem_obj obj default_ns (get_obj oid (some obj) default_ns c).0 in
        (reply ≡ found true)
        × ((k : String) → lookup k (space c' default_ns) ≡ lookup k (space c default_ns))
  rem_obj-created miss which =
      let e' : Entry = record { cnt = 1; obj = obj } in
      let objs' = insert oid e' (space c default_ns) in
      let c₁ = set_space default_ns objs' c in
      let removed =
        rem_obj_known obj oid c₁ objs' e' at_once (lookup-insert_self default_ns objs' c.spaces)
          which (lookup-insert_self oid e' (space c default_ns)) in
      rw (got_new miss, removed)
        (
          refl,
          λ k.
              ap (lookup k) (space-set_space default_ns (drop_user oid e' objs') c₁)
              ∙ drop-new oid obj (space c default_ns) k miss,
        )

  -- With immediate removal, an object of another namespace is not removed if there is no default
  -- namespace: the removal looks in that one, and raises. The cache stays as it was.
  pub rem_obj_elsewhere :
      (ns : String) (objs : Dict String Entry)
      → lookup ns c.spaces ≡ some objs
      → find_oid obj objs ≡ some oid
      → lookup default_ns c.spaces ≡ none
      → rem_obj obj ns c ≡ (c, raised assertion)
  unfolding rem_obj remove_or_delay rem_entry after_removal
  rem_obj_elsewhere ns objs there which miss = ground arith
