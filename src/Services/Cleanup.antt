-- ===== src/Services/Cleanup.antt =====
-- cleanup_expired of arqs-server/app/services.py: what it removes, and that no reader can tell.
use arqs.Prelude.{
  HasUnique, length-update, length-delete_rows, ℕ, ◌+◌, ◌*◌, ◌≤◌, ◌≡◌, refl, ◌∙◌, Bool, true, false,
  ◌&&◌, some, List, [], ◌∷◌, ◌==◌, leb, ltb, arith, has_row, find_row, select_rows, delete_rows,
  update_rows, count_rows, length, map, Bool-cases, Option-cases, inl, inr,
}
use arqs.Models.{Packet, Delivery, LinkCode, CodeStatus, SendEvent, Db, is_active_code}
use arqs.Models.Cascade.{delete_packets}
use arqs.Config.{RuntimeSettings}
use arqs.Services.{
  cleanup_expired, live_deliveries, join_packets, active_packet, is_packet_expired, recent_event,
  effective_link_code_status,
}
use arqs.Services.Live.{of_packet, live-delete}

-- No two packets of the table have the same id.
abbrev pub HasUniqueIds : List Packet → Type 0
HasUniqueIds = HasUnique (λ k. k.packet_id)

no_other :
    (gone : Packet → Bool) (d : Delivery) (p : Packet) (ps : List Packet)
    → (p.packet_id == d.packet_id) ≡ true
    → has_row (λ k. k.packet_id == p.packet_id) ps ≡ false
    → has_row (λ k. gone k && of_packet d k) ps ≡ false
no_other gone d p [] e h = refl
no_other gone d p (k ∷ ps) e h = ground (arith, no_other gone d p ps)

-- With unique ids, the packet that a delivery finds is the only one that can take it away.
pub found_gone :
    (gone : Packet → Bool) (d : Delivery) (p : Packet) (ps : List Packet)
    → HasUniqueIds ps
    → find_row (of_packet d) ps ≡ some p
    → has_row (λ k. gone k && of_packet d k) ps ≡ gone p
found_gone gone d p [] u h = absurd (ground arith)
found_gone gone d p (k ∷ ps) u h = elim (Bool-cases (of_packet d k)) [
  | inl e ↦ ground (arith, no_other gone d k ps e u.0)
  | inr e ↦ ground (arith, found_gone gone d p ps u.1)
]

module _ (gone keep : Packet → Bool) (apart : (p : Packet) → gone p ≡ true → keep p ≡ false)
    (ps : List Packet) (unique : HasUniqueIds ps) where
  select-gone :
      (ds : List Delivery)
      → select_rows
          (λ r. keep r.1)
          (delete_rows (λ r. has_row (λ k. gone k && of_packet r.0 k) ps) (join_packets ps ds))
        ≡ select_rows (λ r. keep r.1) (join_packets ps ds)
  unfolding join_packets
  select-gone [] = refl
  select-gone (d ∷ ds) = elim (Option-cases (find_row (of_packet d) ps)) [
    | inl e ↦ ground (arith, select-gone ds)
    | inr (p, e) ↦ ground (arith, select-gone ds, found_gone gone d p ps unique e, apart p)
  ]

module _ {ℓ} {A : Type ℓ} where
  has_row-deleted : (p : A → Bool) (xs : List A) → has_row p (delete_rows p xs) ≡ false
  has_row-deleted p [] = refl
  has_row-deleted p (x ∷ xs) = ground (arith, has_row-deleted p xs)

-- Events that are pruned are older than every window that is still open.
recent-pruned :
    (now t window : ℕ) (settings : RuntimeSettings) (node_id : ℕ) (events : List SendEvent)
    → now ≤ t
    → window ≡ settings.send_window_seconds * 2
    → count_rows
        (recent_event t settings node_id)
        (delete_rows (λ e. ltb (e.created_at + window) now) events)
      ≡ count_rows (recent_event t settings node_id) events
recent-pruned now t window settings node_id [] le w = refl
recent-pruned now t window settings node_id (e ∷ events) le w =
    ground (arith, recent-pruned now t window settings node_id events le w)

-- An active code that is expired.
abbrev pub stale_code : ℕ → LinkCode → Bool
stale_code now c = is_active_code c.status && leb c.expires_at now

abbrev set_expired : LinkCode → LinkCode
set_expired c = record c { status = CodeStatus.expired }

statuses-swept :
    (now t : ℕ) (codes : List LinkCode)
    → now ≤ t
    → map (effective_link_code_status t) (
        update_rows
          (λ c. is_active_code c.status && leb c.expires_at now)
          (λ c. record c { status = CodeStatus.expired })
          codes)
      ≡ map (effective_link_code_status t) codes
unfolding effective_link_code_status
statuses-swept now t [] le = refl
statuses-swept now t (c ∷ codes) le = ground (arith, statuses-swept now t codes le)

has_row-updated {ℓ} :
    {A : Type ℓ} (p : A → Bool) (f : A → A) (xs : List A)
    → ((x : A) → p (f x) ≡ false)
    → has_row p (update_rows p f xs) ≡ false
has_row-updated p f [] h = refl
has_row-updated p f (x ∷ xs) h = ground (arith, has_row-updated p f xs h, h x)

expired_inactive :
    (now t : ℕ) (p : Packet) → now ≤ t → is_packet_expired now p ≡ true → active_packet t p ≡ false
expired_inactive now t p le h = elim (Option-cases p.expires_at) [
  | inl e ↦ ground arith
  | inr (x, e) ↦ ground arith
]

-- No request sees a cleanup: from then on the live deliveries, what the rate limit counts and the
-- status that each link code is shown with are what they would be without it. Packet ids are unique.
pub cleanup_expired_unseen :
    (now t : ℕ) (settings : RuntimeSettings) (db : Db)
    → now ≤ t
    → HasUniqueIds db.packets
    → (live_deliveries t (cleanup_expired now settings db).1 ≡ live_deliveries t db)
      × ((node_id : ℕ)
          → count_rows
              (recent_event t settings node_id)
              (cleanup_expired now settings db).1.send_events
            ≡ count_rows (recent_event t settings node_id) db.send_events)
      × (map (effective_link_code_status t) (cleanup_expired now settings db).1.link_codes
          ≡ map (effective_link_code_status t) db.link_codes)
unfolding cleanup_expired
cleanup_expired_unseen now t settings db le unique = (
  unfold live_deliveries in
      (live-delete t (is_packet_expired now) db
        ∙ select-gone (is_packet_expired now) (active_packet t) (λ p. expired_inactive now t p le)
            db.packets unique db.deliveries),
  λ node_id. recent-pruned now t _ settings node_id db.send_events le refl,
  statuses-swept now t db.link_codes le,
)

-- A cleanup leaves no expired packet and no expired code that is still marked active, and it reports
-- the number of packets and of send events that the tables lose. No link code is removed.
pub cleanup_expired_complete :
    (now : ℕ) (settings : RuntimeSettings) (db : Db)
    → let (counts, db') = cleanup_expired now settings db in
      (has_row (is_packet_expired now) db'.packets ≡ false)
      × (has_row (stale_code now) db'.link_codes ≡ false)
      × (counts.expired_packets + length db'.packets ≡ length db.packets)
      × (counts.pruned_send_events + length db'.send_events ≡ length db.send_events)
      × (length db'.link_codes ≡ length db.link_codes)
unfolding cleanup_expired delete_packets
cleanup_expired_complete now settings db = (
  has_row-deleted (is_packet_expired now) db.packets,
  has_row-updated (stale_code now) set_expired db.link_codes (λ c. refl),
  length-delete_rows (is_packet_expired now) db.packets,
  length-delete_rows _ db.send_events,
  length-update (stale_code now) set_expired db.link_codes,
)
