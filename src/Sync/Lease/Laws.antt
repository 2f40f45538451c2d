-- ===== src/Sync/Lease/Laws.antt =====
-- A lease excludes other holders until it expires (packages/sync/src/sync-protocol.mjs).
use wendkeep.Prelude.{
  ℕ, ◌≡◌, ◌<◌, refl, true, ltb, Option, none, some, List, [], ◌∷◌, arith, ap, inl, inr, Bool-cases,
  ◌∙◌, lt→ltb, ◌++◌,
}
use wendkeep.Prelude.Text.{Text, text_eq_refl, eq_of_text_eq}
use wendkeep.Prelude.Table.{lookup, insert, lookup-insert}
use wendkeep.Prelude.Result.{ok, guard, >>=-eq-ok}
use wendkeep.Platform.{Platform}
use wendkeep.Sync.Event.Data.{lease_invalid}
use wendkeep.Sync.Event.Create.{required_text}
use wendkeep.Sync.State.Data.{Lease, LeaseSlot, SyncState}
use wendkeep.Sync.Lease.{
  LeaseInput, LeaseOutcome, existing, is_live, lease_time, place_lease, acquire_sync_lease,
}

lookup-insert_self {ℓ} :
    {V : Type ℓ} (k : Text) (v : V) (t : List (Text × V)) → lookup k (insert k v t) ≡ some v
lookup-insert_self k v t = rw (lookup-insert, text_eq_refl)

-- After a lease was placed it is the active one of its key.
place_lease-active :
    (p : Platform) (s : SyncState) (key : Text) (server : ℕ) (lease : Lease) (t : SyncState)
    (o : LeaseOutcome) (before : Option LeaseSlot)
    → lookup key s.leases ≡ before
    → place_lease p s key server lease before ≡ ok (t, o)
    → (slot : LeaseSlot) × (lookup key t.leases ≡ some slot) × (slot.active ≡ o.lease)
unfolding place_lease
place_lease-active p s key server lease t o none e h =
    let slot : LeaseSlot = record { active = lease; history = [] } in
    (slot, ground (arith, lookup-insert_self key slot s.leases), ground arith)
place_lease-active p s key server lease t o (some old) e h =
    elim (Bool-cases (is_live p old.active server)) [
      | inl live ↦ (old, ground arith, ground arith)
      | inr dead ↦
          let slot : LeaseSlot = record {
            active = lease;
            history = old.history ++ old.active ∷ [];
          } in
          (slot, ground (arith, lookup-insert_self key slot s.leases), ground arith)
    ]

-- While a lease is live, another holder is refused.
place_lease-live :
    (p : Platform) (t : SyncState) (key : Text) (now : ℕ) (lease : Lease) (u : SyncState)
    (r : LeaseOutcome) (slot : LeaseSlot)
    → is_live p slot.active now ≡ true
    → place_lease p t key now lease (some slot) ≡ ok (u, r)
    → (u ≡ t)
      × (r ≡ record { status = existing; lease = slot.active })
      × (lease.lease_id ≡ slot.active.lease_id)
unfolding place_lease
place_lease-live p t key now lease u r slot live h =
    ground (arith, eq_of_text_eq slot.active.lease_id lease.lease_id)

is_live_before :
    (p : Platform) (lease : Lease) (now expires : ℕ)
    → p.parse_date lease.expires_at ≡ some expires
    → now < expires
    → is_live p lease now ≡ true
unfolding is_live
is_live_before p lease now expires e early = rw (e, is_live) (lt→ltb now expires early)

held_core :
    (p : Platform) (t u : SyncState) (key key' : Text) (now now' expires : ℕ) (lease held : Lease)
    (r : LeaseOutcome) (slot : LeaseSlot)
    → lookup key t.leases ≡ some slot
    → slot.active ≡ held
    → key' ≡ key
    → now' ≡ now
    → p.parse_date held.expires_at ≡ some expires
    → now < expires
    → place_lease p t key' now' lease (lookup key' t.leases) ≡ ok (u, r)
    → (u ≡ t) × (r.lease ≡ held) × (lease.lease_id ≡ held.lease_id)
held_core p t u key key' now now' expires lease held r slot found active same same_now until early
      h =
    let live : is_live p slot.active now ≡ true =
      rw active (is_live_before p held now expires until early) in
    let placed : place_lease p t key now lease (some slot) ≡ ok (u, r) =
      cc (ap (λ k. place_lease p t k now lease (lookup k t.leases)) same, h, same_now, found) in
    let (unchanged, answer, holder) = place_lease-live p t key now lease u r slot live placed in
    (
      unchanged,
      ap (λ (x : LeaseOutcome). x.lease) answer ∙ active,
      holder ∙ ap (λ (x : Lease). x.lease_id) active,
    )

lease_time-ok :
    (p : Platform) (t : Text) (time : ℕ) → lease_time p t ≡ ok time → p.parse_date t ≡ some time
unfolding lease_time
lease_time-ok p t time h = ground arith

-- A call that returns has placed a lease with the trimmed id at the server's time.
acquire_sync_lease-parts :
    (p : Platform) (s : SyncState) (a : LeaseInput) (t : SyncState) (o : LeaseOutcome)
    → acquire_sync_lease p s a ≡ ok (t, o)
    → (key : Text) × (server : ℕ) × (acquired_time : ℕ) × (expires_time : ℕ) × (lease_id : Text)
      × (actor_id : Text) × (device_id : Text) × (required_text 2048 a.record_key ≡ ok key)
      × (p.parse_date a.now ≡ some server)
      × (required_text 160 a.lease_id ≡ ok lease_id)
      × (place_lease p s key server
            (record {
              lease_id = lease_id;
              actor_id = actor_id;
              device_id = device_id;
              acquired_at = p.to_iso acquired_time;
              expires_at = p.to_iso expires_time;
            })
            (lookup key s.leases)
          ≡ ok (t, o))
unfolding acquire_sync_lease
acquire_sync_lease-parts p s a t o h =
    let (key, ek, h1) = >>=-eq-ok (required_text 2048 a.record_key) _ h in
    let (acquired_time, ea, h2) = >>=-eq-ok (lease_time p a.acquired_at) _ h1 in
    let (expires_time, ee, h3) = >>=-eq-ok (lease_time p a.expires_at) _ h2 in
    let (server, es, h4) = >>=-eq-ok (lease_time p a.now) _ h3 in
    let (_, eg, h5) = >>=-eq-ok (guard (ltb acquired_time expires_time) lease_invalid) _ h4 in
    let (lease_id, el, h6) = >>=-eq-ok (required_text 160 a.lease_id) _ h5 in
    let (actor_id, er, h7) = >>=-eq-ok (required_text 160 a.actor_id) _ h6 in
    let (device_id, ed, h8) = >>=-eq-ok (required_text 160 a.device_id) _ h7 in
    (
      key,
      server,
      acquired_time,
      expires_time,
      lease_id,
      actor_id,
      device_id,
      ek,
      lease_time-ok p a.now server es,
      el,
      h8,
    )

-- Mutual exclusion: once a lease was granted on a key, whoever asks for that key before the lease
-- expires is answered only under the holder's lease id, with the same lease and an unchanged state.
pub acquire_sync_lease_exclusive :
    (p : Platform) (s t u : SyncState) (a b : LeaseInput) (o r : LeaseOutcome) (now expires : ℕ)
    → acquire_sync_lease p s a ≡ ok (t, o)
    → required_text 2048 b.record_key ≡ required_text 2048 a.record_key
    → p.parse_date b.now ≡ some now
    → p.parse_date o.lease.expires_at ≡ some expires
    → now < expires
    → acquire_sync_lease p t b ≡ ok (u, r)
    → (u ≡ t) × (r.lease ≡ o.lease) × (required_text 160 b.lease_id ≡ ok o.lease.lease_id)
acquire_sync_lease_exclusive p s t u a b o r now expires h same clock until early k =
    let (key, server, _, _, lease_id, _, _, ek, es, el, eplace) =
      acquire_sync_lease-parts p s a t o h in
    let (slot, found, active) =
      place_lease-active p s key server _ t o (lookup key s.leases) refl eplace in
    let (key', server', _, _, lease_id', _, _, ek', es', el', eplace') =
      acquire_sync_lease-parts p t b u r k in
    let (unchanged, answer, holder) =
      held_core p t u key key' now server' expires _ o.lease r slot found active
        (cc (ek, ek', same)) (cc (clock, es')) until early eplace' in
    (unchanged, answer, el' ∙ ap ok holder)
