-- ===== src/Reader/Ownership.antt =====
-- Which entry of the map of src/App/Reader.cpp holds which stream, and under which name it stands.
pub mod Opening
pub mod Operations
use aidt.Prelude.{
  ℕ, ◌<◌, ◌≡◌, refl, ap, ◌∙◌, sym, ◌⊎◌, inl, inr, Bool, true, false, List, [], ◌∷◌, Option, none,
  some, Bytes, list_beq, list_beq_iff, is_some, nat_beq, if◌then◌else◌, bytes_eq, nat_eq, arith,
  Option-cases, Bool-cases, subst,
}
use aidt.Prelude.Table.{find, insert, erase, find-insert, find-erase}
use aidt.DataStore.{FdItem, FdMap}
use aidt.Reader.{Reader}
use aidt.Reader.Store.{Streams}

-- What a reading position owes to its place: the name that it carries, and its pointer.
abbrev pub view : Option FdItem → Option (Bytes × Option ℕ)
view none = none
view (some item) = some (item.origfile, item.fs)

-- The pointer of a reading position.
abbrev pub pointer : Option FdItem → Option ℕ
pointer none = none
pointer (some item) = item.fs

-- A pointer is null, or points to a stream that was not deleted, by a number already given out.
abbrev pub Live : Streams → ℕ → Option ℕ → Type 0
Live streams next none = Unit {0}
Live streams next (some h) = (is_some (find h streams) ≡ true) × (h < next)

-- Two pointers are not to the same stream.
abbrev pub Apart : Option ℕ → Option ℕ → Type 0
Apart none q = Unit {0}
Apart (some h) none = Unit {0}
Apart (some h) (some j) = nat_beq h j ≡ false

-- A position stands under the name that it carries.
abbrev pub Named : Bytes → Option FdItem → Type 0
Named path none = Unit {0}
Named path (some item) = item.origfile ≡ path

-- No key stands twice in a map.
abbrev pub Unique : FdMap → Type 0
Unique [] = Unit {0}
Unique ((k, item) ∷ m) = (find k m ≡ none) × Unique m

-- Every position of the map is named by its key, which stands once, its stream exists, and no other
-- position has it.
pub record Owned (fd_map : FdMap) (streams : Streams) (next : ℕ) : Type 0 where
  pub unique : Unique fd_map
  pub named : (p : Bytes) → Named p (find p fd_map)
  pub live : (p : Bytes) → Live streams next (pointer (find p fd_map))
  pub apart :
      (p q : Bytes)
      → (list_beq p q ≡ true) ⊎ Apart (pointer (find p fd_map)) (pointer (find q fd_map))

abbrev pub IsSound : Reader → Type 0
IsSound r = Owned r.fd_map r.streams r.next_stream

pub Apart-sym : (a b : Option ℕ) → Apart a b → Apart b a
Apart-sym none none h = tt
Apart-sym none (some j) h = tt
Apart-sym (some i) none h = tt
Apart-sym (some i) (some j) h = ground (arith, h)

unless : {A : Type 0} {t : Bool} → t ≡ false → (t ≡ true) ⊎ A → A
unless off (inl on) = absurd cc
unless off (inr a) = a

pub Apart-none : (a : Option ℕ) → Apart a none
Apart-none none = tt
Apart-none (some h) = tt

pub Unique-insert : (k : Bytes) (item : FdItem) (m : FdMap) → Unique m → Unique (insert k item m)
Unique-insert k item [] unique = (refl, tt)
Unique-insert k item ((j, old) ∷ m) (absent, unique) = elim (Bool-cases (list_beq j k)) [
  | inl e ↦ rw e (ground (arith, absent, e, list_beq_iff j k), unique)
  | inr e ↦ rw e (
    ground (arith, absent, e, list_beq_iff k j, list_beq_iff j k, find-insert j k item m),
    Unique-insert k item m unique,
  )
]

pub Unique-erase : (k : Bytes) (m : FdMap) → Unique m → Unique (erase k m)
Unique-erase k [] unique = tt
Unique-erase k ((j, old) ∷ m) (absent, unique) = elim (Bool-cases (list_beq j k)) [
  | inl e ↦ rw e (Unique-erase k m unique)
  | inr e ↦ rw e (ground (arith, absent, find-erase j k m), Unique-erase k m unique)
]

-- The same positions, with the same names and pointers, in another map.
pub Owned-view :
    (m m' : FdMap) (streams : Streams) (next : ℕ)
    → ((p : Bytes) → view (find p m') ≡ view (find p m))
    → Unique m'
    → Owned m streams next
    → Owned m' streams next
Owned-view m m' streams next same unique owned = record {
  unique = unique;
  named = λ p. Named-view p (find p m) (find p m') (same p) (owned.named p);
  live = λ p. subst (Live streams next) (pointer-view p) (owned.live p);
  apart = λ p q. elim (owned.apart p q) [
    | inl e ↦ inl e
    | inr e ↦ inr (
        subst (λ a. Apart a (pointer (find q m'))) (pointer-view p)
          (subst (Apart (pointer (find p m))) (pointer-view q) e))
  ];
}
  where
    pointer-of : (a b : Option FdItem) → view b ≡ view a → pointer a ≡ pointer b
    pointer-of none none e = refl
    pointer-of none (some j) e = cc
    pointer-of (some i) none e = cc
    pointer-of (some i) (some j) e = cc

    pointer-view : (p : Bytes) → pointer (find p m) ≡ pointer (find p m')
    pointer-view p = pointer-of (find p m) (find p m') (same p)

    Named-view : (p : Bytes) (a b : Option FdItem) → view b ≡ view a → Named p a → Named p b
    Named-view p none none e h = tt
    Named-view p none (some j) e h = cc
    Named-view p (some i) none e h = cc
    Named-view p (some i) (some j) e h = cc

module _ (m : FdMap) (streams streams' : Streams) (next next' : ℕ) (k : Bytes)
    (others : (p : Bytes) → (list_beq k p ≡ true) ⊎ Live streams' next' (pointer (find p m)))
    (owned : Owned m streams next) where
  pub Owned-insert :
      (item : FdItem)
      → item.origfile ≡ k
      → Live streams' next' item.fs
      → ((p : Bytes) → (list_beq k p ≡ true) ⊎ Apart item.fs (pointer (find p m)))
      → Owned (insert k item m) streams' next'
  Owned-insert item name own far = record {
    unique = Unique-insert k item m owned.unique;
    named = λ p. elim (Bool-cases (list_beq k p)) [
      | inl e ↦ rw (find-insert p k item m, e) (name ∙ (list_beq_iff k p).0 e)
      | inr e ↦ rw (find-insert p k item m, e) (owned.named p)
    ];
    live = λ p. elim (Bool-cases (list_beq k p)) [
      | inl e ↦ rw (find-insert p k item m, e) own
      | inr e ↦ rw (find-insert p k item m, e) (unless e (others p))
    ];
    apart = λ p q. elim (Bool-cases (list_beq k p)) [
      | inl e ↦ elim (Bool-cases (list_beq k q)) [
        | inl e' ↦ inl (ground (arith, list_beq_iff k p, list_beq_iff k q, list_beq_iff p q))
        | inr e' ↦
            inr (rw (find-insert p k item m, e, find-insert q k item m, e') (unless e' (far q)))
      ]
      | inr e ↦ elim (Bool-cases (list_beq k q)) [
        | inl e' ↦ inr (
            rw (find-insert p k item m, e, find-insert q k item m, e')
              (Apart-sym _ _ (unless e (far p))))
        | inr e' ↦ rw (find-insert p k item m, e, find-insert q k item m, e') (owned.apart p q)
      ]
    ];
  }

  pub Owned-erase : Owned (erase k m) streams' next'
  Owned-erase = record {
    unique = Unique-erase k m owned.unique;
    named = λ p. elim (Bool-cases (list_beq k p)) [
      | inl e ↦ rw (find-erase p k m, e) tt
      | inr e ↦ rw (find-erase p k m, e) (owned.named p)
    ];
    live = λ p. elim (Bool-cases (list_beq k p)) [
      | inl e ↦ rw (find-erase p k m, e) tt
      | inr e ↦ rw (find-erase p k m, e) (unless e (others p))
    ];
    apart = λ p q. elim (Bool-cases (list_beq k p)) [
      | inl e ↦ inr (rw (find-erase p k m, e) tt)
      | inr e ↦ elim (Bool-cases (list_beq k q)) [
        | inl e' ↦ inr (rw (find-erase q k m, e') (Apart-none _))
        | inr e' ↦ rw (find-erase p k m, e, find-erase q k m, e') (owned.apart p q)
      ]
    ];
  }
