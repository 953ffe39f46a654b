-- ===== src/Db/Storage/Written.antt =====
-- What is read from the page storage after a write.
use nexus_db.Prelude.{
  ℕ, ◌+◌, ◌-◌, ◌*◌, ◌<◌, ◌≤◌, ◌≡◌, ◌≢◌, ap, ltb, refl, ◌∙◌, inl, inr, true, false, leb, ◌==◌,
  if◌then◌else◌, Bool-cases, Option-cases, arith,
}
use mathlib.Core.Path.{fun_ext}
use nexus_db.Db.Status.{DbError, is_ok}
use nexus_db.Db.Page.{Bytes, Page, invalid_id, page_size, clip}
use nexus_db.Db.Storage.{
  Store, Stream, num_pages, read_page, write_page, stored_page, written, page_offset, bytes_from,
  written_at,
}

num_pages_again :
    (io io' : Stream) (s : Store)
    → is_ok (num_pages io s).0 ≡ true
    → io'.stats ≡ true
    → num_pages io' s ≡ num_pages io s
unfolding num_pages
num_pages_again io io' s = elim (Bool-cases s.open_now) [
  | inr e ↦ simp e (λ ok h. refl)
  | inl e ↦ elim (Bool-cases io.stats) [
    | inr e1 ↦ simp (e, e1) (λ ok h. cc)
    | inl e1 ↦ simp (e, e1) (λ ok h. simp h refl)
  ]
]

write_done :
    (io : Stream) (page : Page) (s : Store)
    → is_ok (write_page io page s).0 ≡ true
    → (s.open_now ≡ true)
      × (is_ok (num_pages io s).0 ≡ true)
      × (leb (num_pages io s).1 page.id ≡ false)
      × ((write_page io page s).1 ≡ stored_page page s)
unfolding write_page
write_done io page s = elim (Bool-cases (page.id == invalid_id)) [
  | inl e ↦ simp e (λ ok. cc)
  | inr e0 ↦ elim (Bool-cases s.open_now) [
    | inr e ↦ simp (e0, e) (λ ok. cc)
    | inl e1 ↦ elim (Bool-cases (is_ok (num_pages io s).0)) [
      | inr e ↦ simp (e0, e1, e) (λ ok. cc)
      | inl e2 ↦ elim (Bool-cases (leb (num_pages io s).1 page.id)) [
        | inl e ↦ simp (e0, e1, e2, e) (λ ok. cc)
        | inr e3 ↦ elim (Option-cases io.fails_after) [
          | inr (n, e) ↦ simp (e0, e1, e2, e3, e) (λ ok. cc)
          | inl e ↦ simp (e0, e1, e2, e3, e) (λ ok. (refl, refl, refl, refl))
        ]
      ]
    ]
  ]
]

-- What was written at an offset is read there.
pub bytes_from-written_at :
    (offset : ℕ) (d : Bytes) (file : ℕ → ℕ)
    → bytes_from offset (written_at offset page_size d file) ≡ clip d
unfolding bytes_from written_at
bytes_from-written_at offset d file = fun_ext (λ j. elim (Bool-cases (ltb j page_size)) [
  | inr e ↦ rw e refl
  | inl e ↦
      let low : leb offset (offset + j) ≡ true = ground arith in
      let high : ltb (offset + j) (offset + page_size) ≡ true = ground arith in
      let back : offset + j - offset ≡ j = omega arith in rw (e, low, high, back) refl
])

-- The places of different pages do not overlap.
pub bytes_from-elsewhere :
    (id j n : ℕ) (d : Bytes) (file : ℕ → ℕ)
    → j ≢ id
    → n ≤ page_size
    → bytes_from (page_offset j) (written_at (page_offset id) n d file)
      ≡ bytes_from (page_offset j) file
unfolding bytes_from written_at page_offset
bytes_from-elsewhere id j n d file ne le = fun_ext (λ i. elim (Bool-cases (ltb i page_size)) [
  | inr e ↦ rw e refl
  | inl e ↦
      let inside : i < page_size = ground arith in
      elim (Bool-cases (leb (id * page_size) (j * page_size + i))) [
        | inr low ↦ rw (e, low) refl
        | inl low ↦
            let above : id < j = ground arith in
            let past : ltb (j * page_size + i) (id * page_size + n) ≡ false = ground arith in
            rw (e, low, past) refl
      ]
])

read_inside :
    (io : Stream) (s : Store) (j : ℕ)
    → s.open_now ≡ true
    → is_ok (num_pages io s).0 ≡ true
    → leb (num_pages io s).1 j ≡ false
    → io.reads ≡ true
    → read_page io j s
      ≡ (DbError.ok, record { id = j; dirty = false; bytes = bytes_from (page_offset j) s.bytes })
unfolding read_page
read_inside io s j e1 e2 e3 e4 = simp (e1, e2, e3, e4) refl

read_other :
    (io : Stream) (page : Page) (s : Store) (j : ℕ)
    → (j == page.id) ≡ false
    → read_page io j (stored_page page s) ≡ read_page io j s
unfolding read_page num_pages stored_page written
read_other io page s j e =
    let other : j ≢ page.id = ground arith in
    let same = bytes_from-elsewhere page.id j page_size page.bytes s.bytes other (omega arith) in
    simp same refl

read_same :
    (io : Stream) (page : Page) (s : Store)
    → s.open_now ≡ true
    → is_ok (num_pages io s).0 ≡ true
    → leb (num_pages io s).1 page.id ≡ false
    → io.reads ≡ true
    → read_page io page.id (stored_page page s)
      ≡ (DbError.ok, record { id = page.id; dirty = false; bytes = clip page.bytes })
unfolding num_pages stored_page written
read_same io page s e1 e2 e3 e4 =
    read_inside io (stored_page page s) page.id e1 e2 e3 e4
    ∙ ap (λ (d : Bytes). (DbError.ok, record { id = page.id; dirty = false; bytes = d }))
        (bytes_from-written_at (page_offset page.id) page.bytes s.bytes)

-- After a write that answers kOk, a stream that reads gives the bytes of the written page, at its
-- place in the file, and every other page as before the write.
pub write_page-read_page :
    (io io' : Stream) (page : Page) (s : Store) (j : ℕ)
    → is_ok (write_page io page s).0 ≡ true
    → io'.stats ≡ true
    → io'.reads ≡ true
    → read_page io' j (write_page io page s).1 ≡ (
        if j == page.id
        then (DbError.ok, record { id = page.id; dirty = false; bytes = clip page.bytes })
        else read_page io' j s)
write_page-read_page io io' page s j ok h1 h2 =
    let (open_now, counted, inside, stored) = write_done io page s ok in
    let again = num_pages_again io io' s counted h1 in
    rw stored (elim (Bool-cases (j == page.id)) [
      | inr e ↦ simp e (read_other io' page s j e)
      | inl e ↦
          let here : j ≡ page.id = ground arith in
          let self : (page.id == page.id) ≡ true = ground arith in
          simp (here, self)
            (read_same io' page s open_now (simp again counted) (simp again inside) h2)
    ])
