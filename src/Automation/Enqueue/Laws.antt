-- ===== src/Automation/Enqueue/Laws.antt =====
-- What enqueueing does, and that it does it once
-- (backend-api/patchforge/automationWork.js, `enqueueSourceFeedWork`).
use diiac_patchforge.Prelude.{
  ◌≡◌, ◌≢◌, refl, inl, inr, true, false, some, String, List, [], ◌∷◌, Bool-cases, Option-cases,
}
use diiac_patchforge.Prelude.Texts.{member, str_take, append-ne-nil}
use diiac_patchforge.Store.{lookup, list_for, has_key}
use diiac_patchforge.Store.Laws.{lookup-append_record, has_key_self, list_for-append_record}
use diiac_patchforge.Automation.{Db, Work, work_keyed, put_work}
use diiac_patchforge.Automation.Enqueue.{
  EnqueueOptions, unsupported, reused, feed_of, allowed_feeds, idempotency_key_of, work_id_of,
  new_work, enqueue,
}

-- What may happen to the queue: a request of a tenant, or a write of an item, as by a worker.
pub data Change : Type 0 where
  requests : String → EnqueueOptions → Change
  writes : Work → Change

module _ (hash : String → String) where
  work_id-ne-nil : (tenant : String) (o : EnqueueOptions) → work_id_of hash tenant o ≢ ""
  unfolding work_id_of
  work_id-ne-nil tenant o =
      append-ne-nil "work-" (str_take 24 (hash (idempotency_key_of hash tenant o))) (λ e. cc)

  -- An unsupported feed is refused, and the store is left as it was.
  pub enqueue_refuses :
      (tenant : String) (o : EnqueueOptions) (db : Db)
      → member (feed_of o) allowed_feeds ≡ false
      → enqueue hash tenant o db ≡ (unsupported (feed_of o), db)
  unfolding enqueue
  enqueue_refuses tenant o db h = rw h

  reused_again :
      (tenant : String) (o : EnqueueOptions) (db : Db) (w : Work)
      → member (feed_of o) allowed_feeds ≡ true
      → lookup tenant (work_id_of hash tenant o) db.work_items ≡ some w
      → enqueue hash tenant o db ≡ (reused w, db)
  unfolding enqueue
  reused_again tenant o db w allowed found = rw (allowed, found)

  stored_after :
      (tenant : String) (o : EnqueueOptions) (db : Db)
      → member (feed_of o) allowed_feeds ≡ true
      → (w : Work) × (lookup tenant
            (work_id_of hash tenant o)
            (enqueue hash tenant o db).1.work_items
          ≡ some w)
  unfolding enqueue put_work
  stored_after tenant o db allowed =
      elim (Option-cases (lookup tenant (work_id_of hash tenant o) db.work_items)) [
        | inl e ↦ (
          new_work hash tenant o db,
          rw
              (
                allowed,
                e,
                lookup-append_record tenant (work_id_of hash tenant o) (new_work hash tenant o db)
                    db.work_items (work_id-ne-nil tenant o),
                has_key_self (new_work hash tenant o db),
              )
              refl,
        )
        | inr (w, e) ↦ (w, rw (allowed, e) e)
      ]

  -- An item is stored under an identifier.
  abbrev IsStored : String → String → Db → Type 0
  IsStored tenant id db = (w : Work) × (lookup tenant id db.work_items ≡ some w)

  put_work-IsStored :
      (tenant id : String) (u : Work) (db : Db)
      → id ≢ ""
      → IsStored tenant id db
      → IsStored tenant id (put_work u db)
  unfolding put_work
  put_work-IsStored tenant id u db named (w, found) =
      let written = lookup-append_record tenant id u db.work_items named in
      elim (Bool-cases (has_key tenant id u)) [
        | inl own ↦ (u, rw (written, own) refl)
        | inr other ↦ (w, rw (written, other) found)
      ]

  enqueue-IsStored :
      (tenant id owner : String) (o : EnqueueOptions) (db : Db)
      → id ≢ ""
      → IsStored tenant id db
      → IsStored tenant id (enqueue hash owner o db).1
  unfolding enqueue
  enqueue-IsStored tenant id owner o db named h =
      elim (Bool-cases (member (feed_of o) allowed_feeds)) [
        | inr refused ↦ rw refused h
        | inl allowed ↦ elim (Option-cases (lookup owner (work_id_of hash owner o) db.work_items)) [
          | inl e ↦
              rw (allowed, e) (put_work-IsStored tenant id (new_work hash owner o db) db named h)
          | inr (w, e) ↦ rw (allowed, e) h
        ]
      ]

  -- the store after a change of the queue
  abbrev pub changed : Change → Db → Db
  changed (requests owner o) db = (enqueue hash owner o db).1
  changed (writes u) db = put_work u db

  abbrev pub all_changed : List Change → Db → Db
  all_changed [] db = db
  all_changed (c ∷ cs) db = all_changed cs (changed c db)

  all_changed-IsStored :
      (tenant id : String) (cs : List Change) (db : Db)
      → id ≢ ""
      → IsStored tenant id db
      → IsStored tenant id (all_changed cs db)
  all_changed-IsStored tenant id [] db named h = h
  all_changed-IsStored tenant id (requests owner o ∷ cs) db named h =
      all_changed-IsStored tenant id cs _ named (enqueue-IsStored tenant id owner o db named h)
  all_changed-IsStored tenant id (writes u ∷ cs) db named h =
      all_changed-IsStored tenant id cs _ named (put_work-IsStored tenant id u db named h)

  -- Work is queued once: after a request for a supported feed, whatever requests of any tenants and
  -- whatever writes of work items follow, in whatever order, a later request for a supported feed with
  -- the same work identifier returns the item that is then stored, and changes nothing.
  pub enqueue_once :
      (tenant : String) (o o' : EnqueueOptions) (db : Db) (cs : List Change)
      → member (feed_of o) allowed_feeds ≡ true
      → member (feed_of o') allowed_feeds ≡ true
      → work_id_of hash tenant o' ≡ work_id_of hash tenant o
      → let later = all_changed cs (enqueue hash tenant o db).1 in
        (w : Work) × (enqueue hash tenant o' later ≡ (reused w, later))
        × (lookup tenant (work_id_of hash tenant o) later.work_items ≡ some w)
  enqueue_once tenant o o' db cs allowed allowed' same =
      let (w, found) =
        all_changed-IsStored tenant (work_id_of hash tenant o) cs (enqueue hash tenant o db).1
          (work_id-ne-nil tenant o) (stored_after tenant o db allowed) in
      (w, reused_again tenant o' _ w allowed' (rw same found), found)

  -- Queueing for one tenant leaves the work items of every other tenant as they were, and writes to
  -- no other collection.
  pub enqueue_isolates :
      (tenant other : String) (o : EnqueueOptions) (db : Db)
      → tenant ≢ other
      → let db' = (enqueue hash tenant o db).1 in
        (list_for other db'.work_items ≡ list_for other db.work_items)
        × (db' ≡ record db { work_items = db'.work_items })
  unfolding enqueue put_work
  enqueue_isolates tenant other o db h = elim (Bool-cases (member (feed_of o) allowed_feeds)) [
    | inr refused ↦ rw refused (refl, refl)
    | inl allowed ↦ elim (Option-cases (lookup tenant (work_id_of hash tenant o) db.work_items)) [
      | inl e ↦
          rw (allowed, e)
            (list_for-append_record other (new_work hash tenant o db) db.work_items h, refl)
      | inr (w, e) ↦ rw (allowed, e) (refl, refl)
    ]
  ]
