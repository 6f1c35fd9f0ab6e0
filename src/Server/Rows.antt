-- ===== src/Server/Rows.antt =====
-- What the inserts of a registration do to the rows of the users, seen through a relation of two
-- versions of a row.
use identity_mservice.Base.{Bytes, ℤ, ◌≡◌, ◌⊎◌, ◌∙◌, inl, inr}
use identity_mservice.Model.{User, UserAuthMapping}
use identity_mservice.Backend.{Backend, Result, found}
use identity_mservice.Registration.Service.Framed.{Frame}
use identity_mservice.Server.Quiet.{ReadOnly}

pub record Preorder (R : User → User → Type 0) : Type 0 where
  pub same : (u : User) → R u u
  pub chain : (u v t : User) → R u v → R v t → R u t

module _ (b : Backend) where
  -- Each user that a read by the key finds is still found, by a row that is related.
  abbrev pub KeepsRows : (User → User → Type 0) → b.Db → b.Db → Type 0
  KeepsRows R x y =
      (id : ℤ) (u : User)
      → (b.first_user id x).0 ≡ found u
      → (v : User) × ((b.first_user id y).0 ≡ found v) × R u v

  -- The rows of the users that a read by their key finds are the same.
  abbrev pub SameUsers : b.Db → b.Db → Type 0
  SameUsers x y = (id : ℤ) → (b.first_user id y).0 ≡ (b.first_user id x).0

  -- What gorm promises of the table of the users where a registration calls it.
  pub record InsertLaws : Type 1 where
    pub reads : ReadOnly b
    pub by_email : (email : Bytes) (db : b.Db) → (b.first_mapping_by_email email db).1 ≡ db
    -- an insert leaves the rows that are there, and the table of the mappings is another
    pub create_user :
        (user u : User) (id : ℤ) (db : b.Db)
        → (b.first_user id db).0 ≡ found u
        → (b.first_user id (b.create_user user db).1).0 ≡ found u
    pub create_mapping : (m : UserAuthMapping) (db : b.Db) → SameUsers db (b.create_mapping m db).1
    -- a transaction leaves the rows alone or makes those of one run of its closure
    pub transaction :
        (S : Type 0) (fc : b.Db × S → Result (Unit {0}) × (b.Db × S)) (db : b.Db) (rest : S)
        → SameUsers db (b.transaction S fc (db, rest)).1.0
          ⊎ ((begun : b.Db) × (s : S) × SameUsers db begun
              × SameUsers (fc (begun, s)).1.0 (b.transaction S fc (db, rest)).1.0)

  module _ (R : User → User → Type 0) (order : Preorder R) where
    pub KeepsRows-refl : (db : b.Db) → KeepsRows R db db
    KeepsRows-refl db id u e = (u, e, order.same u)

    pub KeepsRows-trans : (x y z : b.Db) → KeepsRows R x y → KeepsRows R y z → KeepsRows R x z
    KeepsRows-trans x y z h k id u e =
        let (v, f, m) = h id u e in let (t, g, l) = k id v f in (t, g, order.chain u v t m l)

    pub SameUsers-KeepsRows : (x y : b.Db) → SameUsers x y → KeepsRows R x y
    SameUsers-KeepsRows x y h id u e = (u, h id ∙ e, order.same u)

    pub frame : InsertLaws → Frame b (KeepsRows R)
    frame laws = record {
      same = KeepsRows-refl;
      chain = KeepsRows-trans;
      by_clerk = laws.reads.by_clerk;
      by_email = laws.by_email;
      create_user = λ user db id u e. (u, laws.create_user user u id db e, order.same u);
      create_mapping =
          λ m db. SameUsers-KeepsRows db (b.create_mapping m db).1 (laws.create_mapping m db);
      transaction = λ S fc db rest closed. elim (laws.transaction S fc db rest) [
        | inl same ↦ SameUsers-KeepsRows db (b.transaction S fc (db, rest)).1.0 same
        | inr (begun, s, start, end) ↦
            let made = (fc (begun, s)).1.0 in
            let after = (b.transaction S fc (db, rest)).1.0 in
            KeepsRows-trans db begun after (SameUsers-KeepsRows db begun start) (
              KeepsRows-trans begun made after (closed begun s)
                (SameUsers-KeepsRows made after end))
      ];
    }
