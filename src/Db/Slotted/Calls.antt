-- ===== src/Db/Slotted/Calls.antt =====
-- Each call does what the contract says.
use nexus_db.Prelude.{
  ℕ, ◌+◌, ◌-◌, ◌≤◌, ◌<◌, ◌≡◌, refl, sym, ◌∙◌, inl, inr, false, ◌||◌, none, List, ltb, leb, ◌==◌,
  if◌then◌else◌, length, Bool-cases, arith,
}
use nexus_db.Db.Status.{DbError, is_ok}
use nexus_db.Db.Page.{Bytes, Page, page_size}
use nexus_db.Db.Page.Access.{length-bytes_at}
use nexus_db.Db.Slotted.{
  on_page, slot_count, free_start, free_end, slot_offset, slot_length, max_record_size,
  slot_entry_size, free_bytes, insert, update, delete, compact,
}
use nexus_db.Db.Slotted.Edit.{Stores}
use nexus_db.Db.Slotted.Layout.{
  Layout, WellFormed, record_at, record_at-none, record_at-some, Layout-validate,
}
use nexus_db.Db.Slotted.Insert.{Room, place-WellFormed, place-Stores, slot_count-place}
use nexus_db.Db.Slotted.Change.{
  bury-WellFormed, bury-Stores, rewrite-WellFormed, rewrite-Stores, slot_count-bury,
  slot_count-rewrite,
}
use nexus_db.Db.Slotted.Relocate.{relocate-WellFormed, relocate-Stores, slot_count-relocate}
use nexus_db.Db.Slotted.Compact.{repack-WellFormed, record_at-repack, slot_count-repack}
use nexus_db.Db.Slotted.Pack.{sum_live}
use nexus_db.Db.Slotted.Space.{sum_live-fits, total_live-WellFormed}
use nexus_db.Db.Slotted.Contract.{
  Request, perform, call, contents, granted, replaced, found, answer, Shows, reported, Served,
}

refused :
    (r : Request) (d : Bytes) (code : DbError)
    → WellFormed d
    → is_ok code ≡ false
    → code ≡ answer r (free_bytes d) (contents d)
    → Served r d code none d
unfolding Shows
refused r d code w e a = record {
  answered = a;
  named = rw e refl;
  shown = rw e (refl, λ i. refl);
  kept = w;
}

free_bytes-Layout : (d : Bytes) → Layout d → free_bytes d ≡ free_end d - free_start d
unfolding free_bytes
free_bytes-Layout d l = let ordered = l.ordered in let bounded = l.bounded in ground arith

-- The code of a slot's record is the code of its length.
record_at-length :
    (d : Bytes) (slot : ℕ)
    → leb (slot_count d) slot ≡ false
    → (slot_length d slot == 0) ≡ false
    → (free n : ℕ)
    → (found (record_at d slot) ≡ DbError.ok)
      × (replaced free n (record_at d slot) ≡ (
          if leb n (slot_length d slot)
          then DbError.ok
          else if ltb free n
          then DbError.buffer_full
          else DbError.ok))
unfolding found replaced
record_at-length d slot inside live free n =
    let size = length-bytes_at d (slot_offset d slot) (slot_length d slot) in
    rw (record_at-some d slot (ground arith) (ground arith), size) (refl, refl)

perform-insert :
    (xs : List ℕ) (d : Bytes) (w : WellFormed d)
    → Served (Request.add_record xs) d (insert xs d).0 (insert xs d).1 (insert xs d).2
unfolding insert answer Shows granted Room Stores reported
perform-insert xs d w =
    let l = w.layout in
    let valid = Layout-validate d l in
    let free = free_bytes-Layout d l in
    elim (Bool-cases (length xs == 0)) [
      | inl e ↦
          rw (valid, e)
            (refused (Request.add_record xs) d DbError.invalid_argument w refl (rw e refl))
      | inr e ↦ elim (Bool-cases (ltb max_record_size (length xs))) [
        | inl e2 ↦
            rw (valid, e, e2)
              (refused (Request.add_record xs) d DbError.buffer_full w refl (rw (e, e2) refl))
        | inr e2 ↦
            elim (Bool-cases (ltb (free_end d - free_start d) (slot_entry_size + length xs))) [
              | inl e3 ↦
                  rw (valid, e, e2, e3)
                    (refused (Request.add_record xs) d DbError.buffer_full w refl
                      (rw (e, e2, free, e3) refl))
              | inr e3 ↦
                  let room : Room d xs = ground arith in
                  rw (valid, e, e2, e3)
                    (record {
                      answered = rw (e, e2, free, e3) refl;
                      named = refl;
                      shown = (slot_count-place d xs l room, place-Stores d xs l room);
                      kept = place-WellFormed d xs w room;
                    })
            ]
      ]
    ]

-- `Update` of a slot of the directory, with a record that is not too long for a page.
update_slot :
    (slot : ℕ) (xs : List ℕ) (d : Bytes) (w : WellFormed d)
    → (length xs == 0) ≡ false
    → ltb max_record_size (length xs) ≡ false
    → leb (slot_count d) slot ≡ false
    → Served (Request.set_record slot xs) d (update slot xs d).0 none (update slot xs d).1
unfolding update answer Shows granted Stores reported replaced
update_slot slot xs d w e e2 e3 =
    let valid = Layout-validate d w.layout in
    let free = free_bytes-Layout d w.layout in
    let lt : slot < slot_count d = ground arith in
    let pos : 0 < length xs = ground arith in
    let r = Request.set_record slot xs in
    elim (Bool-cases (slot_length d slot == 0)) [
      | inl z ↦
          let gone = record_at-none d slot (ground arith) in
          rw (valid, e, e2, e3, z)
            (refused r d DbError.not_found w refl (rw (e, e2, e3, gone) refl))
      | inr z ↦
          let code = (record_at-length d slot e3 z (free_bytes d) (length xs)).1 in
          elim (Bool-cases (leb (length xs) (slot_length d slot))) [
            | inl s ↦
                let short : length xs ≤ slot_length d slot = ground arith in
                rw (valid, e, e2, e3, z, s)
                  (record {
                    answered = rw (e, e2, e3) (sym (code ∙ rw s refl));
                    named = refl;
                    shown = (
                      slot_count-rewrite d slot w lt xs pos short,
                      rewrite-Stores d slot w lt xs pos short,
                    );
                    kept = rewrite-WellFormed d slot w lt xs pos short;
                  })
            | inr s ↦ elim (Bool-cases (ltb (free_end d - free_start d) (length xs))) [
              | inl full ↦
                  rw (valid, e, e2, e3, z, s, full)
                    (refused r d DbError.buffer_full w refl
                      (rw (e, e2, e3) (sym (code ∙ rw (s, free, full) refl))))
              | inr fits ↦
                  let room : (0 < length xs) × (length xs ≤ free_end d - free_start d) =
                    (pos, ground arith) in
                  rw (valid, e, e2, e3, z, s, fits)
                    (record {
                      answered = rw (e, e2, e3) (sym (code ∙ rw (s, free, fits) refl));
                      named = refl;
                      shown = (
                        slot_count-relocate d slot xs w lt room,
                        relocate-Stores d slot xs w lt room,
                      );
                      kept = relocate-WellFormed d slot xs w lt room;
                    })
            ]
          ]
    ]

perform-update :
    (slot : ℕ) (xs : List ℕ) (d : Bytes) (w : WellFormed d)
    → Served (Request.set_record slot xs) d (update slot xs d).0 none (update slot xs d).1
unfolding update answer Shows granted Stores reported
perform-update slot xs d w =
    let l = w.layout in
    let valid = Layout-validate d l in
    let free = free_bytes-Layout d l in
    let r = Request.set_record slot xs in
    elim (Bool-cases (length xs == 0)) [
      | inl e ↦ rw (valid, e) (refused r d DbError.invalid_argument w refl (rw e refl))
      | inr e ↦ elim (Bool-cases (ltb max_record_size (length xs))) [
        | inl e2 ↦ rw (valid, e, e2) (refused r d DbError.buffer_full w refl (rw (e, e2) refl))
        | inr e2 ↦ elim (Bool-cases (leb (slot_count d) slot)) [
          | inl e3 ↦
              rw (valid, e, e2, e3)
                (refused r d DbError.invalid_argument w refl (rw (e, e2, e3) refl))
          | inr e3 ↦ update_slot slot xs d w e e2 e3
        ]
      ]
    ]

perform-delete :
    (slot : ℕ) (d : Bytes) (w : WellFormed d)
    → Served (Request.drop_record slot) d (delete slot d).0 none (delete slot d).1
unfolding delete answer Shows granted Stores reported found
perform-delete slot d w =
    let valid = Layout-validate d w.layout in
    let r = Request.drop_record slot in
    elim (Bool-cases (leb (slot_count d) slot)) [
      | inl e ↦ rw (valid, e) (refused r d DbError.invalid_argument w refl (rw e refl))
      | inr e ↦ elim (Bool-cases (slot_length d slot == 0)) [
        | inl z ↦
            let gone = record_at-none d slot (ground arith) in
            rw (valid, e, z) (refused r d DbError.not_found w refl (rw (e, gone) refl))
        | inr z ↦
            let lt : slot < slot_count d = ground arith in
            let here = record_at-length d slot e z 0 0 in
            rw (valid, e, z)
              (record {
                answered = rw e (sym here.0);
                named = refl;
                shown = (slot_count-bury d slot w lt, bury-Stores d slot w lt);
                kept = bury-WellFormed d slot w lt;
              })
      ]
    ]

perform-compact :
    (scratch d : Bytes) (w : WellFormed d)
    → Served Request.pack_records d (compact scratch d).0 none (compact scratch d).1
unfolding compact answer Shows granted Stores reported
perform-compact scratch d w =
    let l = w.layout in
    let ordered = l.ordered in
    let fits = sum_live-fits d w in
    let small : ltb (page_size - free_start d) (sum_live d (slot_count d) 0) ≡ false =
      ground arith in
    rw (Layout-validate d l, total_live-WellFormed d w, small)
      (record {
        answered = refl;
        named = refl;
        shown = (
          slot_count-repack scratch d l (omega arith),
          record_at-repack scratch d l (omega arith),
        );
        kept = repack-WellFormed scratch d l (omega arith);
      })

perform-Served :
    (scratch : Bytes) (r : Request) (d : Bytes)
    → WellFormed d
    → Served r d (perform scratch r d).0 (perform scratch r d).1 (perform scratch r d).2
unfolding perform
perform-Served scratch (Request.add_record xs) d w = perform-insert xs d w
perform-Served scratch (Request.set_record slot xs) d w = perform-update slot xs d w
perform-Served scratch (Request.drop_record slot) d w = perform-delete slot d w
perform-Served scratch Request.pack_records d w = perform-compact scratch d w

-- An insert, update, delete or compaction of a well-formed page answers the code that the contract
-- says, changes the directory of records as granted or not at all, keeps the page well formed, and
-- marks it dirty where it succeeded.
pub call-Served :
    (scratch : Bytes) (r : Request) (page : Page)
    → WellFormed page.bytes
    → let (code, slot, page') = call scratch r page in
      Served r page.bytes code slot page'.bytes
      × (page'.dirty ≡ (is_ok code || page.dirty))
      × (page'.id ≡ page.id)
unfolding call on_page
call-Served scratch r page w = (perform-Served scratch r page.bytes w, refl, refl)
