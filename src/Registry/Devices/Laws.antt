-- ===== src/Registry/Devices/Laws.antt =====
-- The retired device identifiers of an identity.
use anp_identity.Errors.{err, invalid_extension, ok}
use anp_identity.Input.{profile_eq, role_eq}
use anp_identity.Json.{Value, value_eq}
use anp_identity.Keystore.{secret_ref_eq}
use anp_identity.Prelude.{
  Bool, List, [], any, ap, arith, contains, eq_iff, false, list_eq, nat_eq, not, option_eq, pair_eq,
  refl, retain, true, ◌&&◌, ◌++◌, ◌==◌, ◌||◌, ◌∙◌, ◌∷◌, ◌≡◌,
}
use anp_identity.Registry.{
  IdentityRecord, capability_eq, key_state_eq, origin_eq, publication_eq, state_eq, summary_eq,
}
use anp_identity.Registry.Devices.{device_ids, insert_id, lost_ids, observe_devices, sort_dedup}
use anp_identity.Text.{Text}

contains-insert_id :
    (x z : Text) (ys : List Text) → contains (insert_id x ys) z ≡ (x == z || contains ys z)
unfolding insert_id
contains-insert_id x z [] = ground arith
contains-insert_id x z (y ∷ ys) =
    ground (arith, contains-insert_id x z ys, eq_iff x y, eq_iff x z, eq_iff y z)

contains-sort_dedup : (z : Text) (xs : List Text) → contains (sort_dedup xs) z ≡ contains xs z
unfolding sort_dedup
contains-sort_dedup z [] = refl
contains-sort_dedup z (x ∷ xs) =
    ground (arith, contains-insert_id x z (sort_dedup xs), contains-sort_dedup z xs)

contains-append :
    (z : Text) (xs ys : List Text) → contains (xs ++ ys) z ≡ (contains xs z || contains ys z)
contains-append z [] ys = refl
contains-append z (x ∷ xs) ys = ground (arith, contains-append z xs ys)

contains-retain :
    (z : Text) (p : Text → Bool) (xs : List Text)
    → contains (retain p xs) z ≡ (contains xs z && p z)
contains-retain z p [] = refl
contains-retain z p (x ∷ xs) = ground (arith, contains-retain z p xs, eq_iff x z)

observe-eq-ok :
    (candidate : Value) (r s : IdentityRecord)
    → observe_devices candidate r ≡ ok s
    → (any (λ id. contains (device_ids candidate) id) r.retired_device_ids ≡ false)
      × (s ≡ record r {
        retired_device_ids = sort_dedup (r.retired_device_ids ++ lost_ids r.document candidate);
      })
unfolding observe_devices
observe-eq-ok candidate r s h = ground arith

-- The identifiers that `observe_devices` remembers are those it did, and those that the record's
-- document names and the new one does not.
retired-observe :
    (candidate : Value) (r s : IdentityRecord) (id : Text)
    → observe_devices candidate r ≡ ok s
    → contains s.retired_device_ids id ≡ (
        contains r.retired_device_ids id
        || contains (device_ids r.document) id && not (contains (device_ids candidate) id))
unfolding lost_ids
retired-observe candidate r s id h =
    let (clear, eq) = observe-eq-ok candidate r s h in
    let set = r.retired_device_ids ++ lost_ids r.document candidate in
    ap (λ (x : IdentityRecord). contains x.retired_device_ids id) eq
    ∙ contains-sort_dedup id set
    ∙ contains-append id r.retired_device_ids (lost_ids r.document candidate)
    ∙ ap (λ b. contains r.retired_device_ids id || b)
        (contains-retain id (λ x. not (contains (device_ids candidate) x)) (device_ids r.document))

-- What may happen to a record: a document is observed and then held, or something changes that
-- leaves the retired identifiers alone. The second may change the document too: a root promotion
-- (`confirm_root_promotion`) holds one that it does not observe.
pub data Later (r : IdentityRecord) : IdentityRecord → Type 0 where
  same : Later r r
  observed :
      {s t : IdentityRecord} (candidate : Value)
      → Later r s
      → observe_devices candidate s ≡ ok t
      → Later r (record t { document = candidate })
  elsewhere :
      {s t : IdentityRecord} → Later r s → t.retired_device_ids ≡ s.retired_device_ids → Later r t

-- A retired identifier stays retired.
retired-Later :
    (r s : IdentityRecord) (id : Text)
    → contains r.retired_device_ids id ≡ true
    → Later r s
    → contains s.retired_device_ids id ≡ true
retired-Later r s id h same = h
retired-Later r s id h (observed {s = u} {t = v} candidate path ok_v) =
    rw (retired-observe candidate u v id ok_v) (rw (retired-Later r u id h path) refl)
retired-Later r s id h (elsewhere {s = u} path kept) =
    ap (λ ids. contains ids id) kept ∙ retired-Later r u id h path

any-true :
    (ids xs : List Text) (id : Text)
    → contains ids id ≡ true
    → contains xs id ≡ true
    → any (λ x. contains ids x) xs ≡ true
any-true ids [] id h o = cc
any-true ids (x ∷ xs) id h o = ground (arith, any-true ids xs id, eq_iff x id)

observe-refuses :
    (candidate : Value) (r : IdentityRecord) (id : Text)
    → contains (device_ids candidate) id ≡ true
    → contains r.retired_device_ids id ≡ true
    → observe_devices candidate r ≡ err invalid_extension
unfolding observe_devices
observe-refuses candidate r id named gone =
    ground (arith, any-true (device_ids candidate) r.retired_device_ids id named gone)

-- A device that an observed document left out is remembered for good: whatever documents are
-- observed and held later, and whatever else changes without touching the retired identifiers, even
-- a document that is held without being observed, each document that names the device is refused by
-- every later `observe_devices`.
pub lost_device_stays_lost :
    (candidate later : Value) (r s t : IdentityRecord) (id : Text)
    → contains (device_ids r.document) id ≡ true
    → contains (device_ids candidate) id ≡ false
    → observe_devices candidate r ≡ ok s
    → Later (record s { document = candidate }) t
    → contains (device_ids later) id ≡ true
    → observe_devices later t ≡ err invalid_extension
lost_device_stays_lost candidate later r s t id had lost h path named =
    let e = retired-observe candidate r s id h in
    observe-refuses later t id named
      (retired-Later (record s { document = candidate }) t id (ground (arith, e)) path)
