-- ===== src/Moves/Stored.antt =====
-- The records of one user as db/db.go keeps them in pstore: GetRecord, SaveUpdate and
-- SaveRecordWithUpdate. `S` is pstore's state, `V` a stored value, `R` what moves do not read of a
-- record. `touch` is updateLastItemSync, which stamps the user and no record.
use gramophile.Prelude.{
  ℕ, ℤ, String, Option, none, some, [], ◌∷◌, ◌≡◌, inl, inr, Option-cases, arith, if◌then◌else◌,
  sprint, show,
}
use gramophile.Status.{Err, Result, ok, err, errorf, is_not_found, Result-cases}

pub record StoredRecord (R : Type 0) : Type 0 where
  pub instance_id : ℕ
  pub id : ℕ
  pub folder_id : ℤ
  pub rest : R

pub record Client (S V R : Type 0) : Type 0 where
  pub read : String → S → Result V
  pub write : String → V → S → S × Option Err
  pub marshal : StoredRecord R → Result V
  pub unmarshal : V → Result (StoredRecord R)
  pub marshal_update : ℕ → Result V
  pub touch : S → S

module _ (user : ℕ) where
  unfoldable pub record_key : ℕ → String
  record_key iid = sprint ("gramophile/user/" ∷ show user ∷ "/release/" ∷ show iid ∷ [])

  unfoldable pub update_key : ℕ → ℕ → String
  update_key iid date =
      sprint
        ("gramophile/user/" ∷ show user ∷ "/release/" ∷ show iid ∷ "-" ∷ show date ∷ ".update" ∷ [])

  module _ {S V R : Type 0} (io : Client S V R) where
    -- A value that is written is read back, an encoding is read back, and the stamp on the user
    -- leaves the records.
    pub record ClientLaws : Type 0 where
      pub read-write :
          (k : String) (v : V) (s : S)
          → (io.write k v s).1 ≡ none
          → io.read k (io.write k v s).0 ≡ ok v
      pub unmarshal-marshal :
          (x : StoredRecord R) (v : V) → io.marshal x ≡ ok v → io.unmarshal v ≡ ok x
      pub read-touch :
          (iid : ℕ) (s : S) → io.read (record_key iid) (io.touch s) ≡ io.read (record_key iid) s

    unfoldable pub get_record : ℕ → S → Result (StoredRecord R)
    get_record iid s = elim (io.read (record_key iid) s) [
      | err e ↦ err (errorf e.code (sprint ("Bad read: " ∷ e.message ∷ [])))
      | ok v ↦ io.unmarshal v
    ]

    unfoldable pub save_update : ℕ → ℕ → S → S × Option Err
    save_update iid date s = elim (io.marshal_update date) [
      | err e ↦ (s, some e)
      | ok value ↦ io.write (update_key iid date) value s
    ]

    -- A missing record counts as an empty value, which is the encoding of an empty record.
    abbrev pub old_error : Result V → Option Err
    old_error (err e) = if is_not_found e.code then none else some e
    old_error (ok v) = elim (io.unmarshal v) [ err e ↦ some e | ok x ↦ none ]

    unfoldable pub save_record_with_update : StoredRecord R → ℕ → S → S × Option Err
    unfolding save_update
    save_record_with_update x date s = elim (io.marshal x) [
      | err e ↦ (s, some e)
      | ok value ↦ elim (old_error (io.read (record_key x.instance_id) s)) [
        | some e ↦ (s, some e)
        | none ↦
            let updated = save_update x.instance_id date s in
            let written = io.write (record_key x.instance_id) value updated.0 in
            elim updated.1 [
              | some e ↦ updated
              | none ↦ elim written.1 [ some e ↦ written | none ↦ (io.touch written.0, none) ]
            ]
      ]
    ]

    -- A save that ends without an error has written the record's encoding last.
    save-written :
        (x : StoredRecord R) (date : ℕ) (s : S)
        → (save_record_with_update x date s).1 ≡ none
        → (v : V) × (t : S) × (io.marshal x ≡ ok v)
          × ((io.write (record_key x.instance_id) v t).1 ≡ none)
          × ((save_record_with_update x date s).0
              ≡ io.touch (io.write (record_key x.instance_id) v t).0)
    unfolding save_record_with_update
    save-written x date s h =
        let t = (save_update x.instance_id date s).0 in
        elim (Result-cases (io.marshal x)) [
          | inr (e, refused) ↦ absurd (ground (arith, h, refused))
          | inl (v, encoded) ↦ elim (Option-cases (io.write (record_key x.instance_id) v t).1) [
            | inr (e, refused) ↦ absurd (ground (arith, h, encoded, refused))
            | inl written ↦ (v, t, encoded, written, ground (arith, h, encoded, written))
          ]
        ]

    module _ (laws : ClientLaws) where
      pub get-save :
          (x : StoredRecord R) (date : ℕ) (s : S)
          → (save_record_with_update x date s).1 ≡ none
          → get_record x.instance_id (save_record_with_update x date s).0 ≡ ok x
      unfolding get_record
      get-save x date s h =
          let (v, t, encoded, written, saved) = save-written x date s h in
          let k = record_key x.instance_id in
          rw (
            saved,
            laws.read-touch x.instance_id (io.write k v t).0,
            laws.read-write k v t written,
            laws.unmarshal-marshal x v encoded,
            get_record,
          )
