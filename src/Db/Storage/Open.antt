-- ===== src/Db/Storage/Open.antt =====
-- `PageStorage::Open` from the path on: it makes a file only where there is none.
use nexus_db.Prelude.{
  ℕ, ◌%◌, ◌≡◌, refl, ap, ◌⊎◌, inl, inr, true, false, not, ◌&&◌, Option, none, some, ◌==◌,
  if◌then◌else◌, is_some, Bool-cases,
}
use nexus_db.Db.Status.{DbError, is_ok}
use nexus_db.Db.Page.{page_size}
use nexus_db.Db.Opening.{Opening}
use nexus_db.Db.Storage.{Store, Stream, open_store}

pub record DbFile : Type 0 where
  pub size : ℕ
  pub bytes : ℕ → ℕ

abbrev pub empty_file : DbFile
empty_file = record { size = 0; bytes = λ k. 0 }

abbrev pub opened : DbFile → Store
opened f = record { open_now = true; file_size = f.size; bytes = f.bytes }

-- The end of `Open`, of the file that was opened.
unfoldable pub open_file : Stream → Option DbFile → DbError × Option Store × Option DbFile
open_file io none = (DbError.io_error, none, none)
open_file io (some f) = let (code, store) = open_store io f.size f.bytes in (code, store, some f)

-- `PageStorage::Open` into a pointer that is not NULL: the code, the storage, and the file at the
-- path, `none` if there is none. An open with `std::ios::out` alone leaves an empty file.
unfoldable pub open_path : Opening → Stream → Option DbFile → DbError × Option Store × Option DbFile
open_path o io file =
    let made = if o.creates then some empty_file else file in
    if not o.named
    then (DbError.invalid_argument, none, file)
    else if is_some file && o.opens
    then open_file io file
    else if not o.looks
    then (DbError.io_error, none, file)
    else if is_some file
    then (DbError.io_error, none, file)
    else if not o.creates
    then (DbError.io_error, none, made)
    else if not o.reopens
    then (DbError.io_error, none, made)
    else open_file io made

-- What an `Open` leaves: the code, the storage and the file.
pub record Opened (file : Option DbFile) (code : DbError) (store : Option Store)
    (file' : Option DbFile) : Type 0 where
  pub kept : is_some file ≡ true → file' ≡ file
  pub made : is_some file ≡ false → (file' ≡ none) ⊎ (file' ≡ some empty_file)
  pub shown :
      is_ok code ≡ true
      → (f : DbFile) × (file' ≡ some f)
        × (store ≡ some (opened f))
        × ((f.size % page_size == 0) ≡ true)
  pub refused : is_ok code ≡ false → store ≡ none

failed :
    (file file' : Option DbFile) (code : DbError)
    → is_ok code ≡ false
    → (is_some file ≡ true → file' ≡ file)
    → (is_some file ≡ false → (file' ≡ none) ⊎ (file' ≡ some empty_file))
    → Opened file code none file'
failed file file' code bad kept made = record {
  kept = kept;
  made = made;
  shown = λ good. cc;
  refused = λ b. refl;
}

-- The end of `Open`, behind either way to the file `f`.
open_file-Opened :
    (io : Stream) (file : Option DbFile) (f : DbFile)
    → (is_some file ≡ true → some f ≡ file)
    → (is_some file ≡ false → f ≡ empty_file)
    → let (code, store, file') = open_file io (some f) in Opened file code store file'
unfolding open_file open_store
open_file-Opened io file f kept made =
    let made' : is_some file ≡ false
        → (◌≡◌ {A = Option DbFile} (some f) none) ⊎ (some f ≡ some empty_file) =
      λ no. inr (ap (λ g. some g) (made no)) in
    elim (Bool-cases io.stats) [
      | inr e ↦ simp e (failed file (some f) DbError.io_error refl kept made')
      | inl e ↦ elim (Bool-cases (f.size % page_size == 0)) [
        | inr e1 ↦ simp (e, e1) (failed file (some f) DbError.io_error refl kept made')
        | inl e1 ↦
            simp (e, e1)
              (record {
                kept = kept;
                made = made';
                shown = λ ok. (f, refl, refl, e1);
                refused = λ bad. cc;
              })
      ]
    ]

-- `Open` of a path, on every branch: a file that is there stays as it is, and where there is none
-- an empty one may be made. With kOk the storage is open on the file at the path, whose size is a
-- multiple of a page; else there is no storage.
pub open_path-Opened :
    (o : Opening) (io : Stream) (file : Option DbFile)
    → let (code, store, file') = open_path o io file in Opened file code store file'
unfolding open_path
open_path-Opened o io none = elim (Bool-cases o.named) [
  | inr e ↦ rw e (failed none none DbError.invalid_argument refl (λ h. refl) (λ h. inl refl))
  | inl e ↦ elim (Bool-cases o.looks) [
    | inr e1 ↦ rw (e, e1) (failed none none DbError.io_error refl (λ h. refl) (λ h. inl refl))
    | inl e1 ↦ elim (Bool-cases o.creates) [
      | inr e2 ↦ rw (e, e1, e2) (failed none none DbError.io_error refl (λ h. refl) (λ h. inl refl))
      | inl e2 ↦ elim (Bool-cases o.reopens) [
        | inr e3 ↦
            rw (e, e1, e2, e3)
              (failed none (some empty_file) DbError.io_error refl (λ h. cc) (λ h. inr refl))
        | inl e3 ↦ rw (e, e1, e2, e3) (open_file-Opened io none empty_file (λ h. cc) (λ h. refl))
      ]
    ]
  ]
]
open_path-Opened o io (some f) =
    let stays : (code : DbError) → is_ok code ≡ false → Opened (some f) code none (some f) =
      λ code bad. failed (some f) (some f) code bad (λ h. refl) (λ h. cc) in
    elim (Bool-cases o.named) [
      | inr e ↦ rw e (stays DbError.invalid_argument refl)
      | inl e ↦ elim (Bool-cases o.opens) [
        | inl e1 ↦ rw (e, e1) (open_file-Opened io (some f) f (λ h. refl) (λ h. cc))
        | inr e1 ↦ elim (Bool-cases o.looks) [
          | inl e2 ↦ rw (e, e1, e2) (stays DbError.io_error refl)
          | inr e2 ↦ rw (e, e1, e2) (stays DbError.io_error refl)
        ]
      ]
    ]
