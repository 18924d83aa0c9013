-- ===== src/Ingest/Rows.antt =====
-- How an update of the table of sources changes one row.
use guru_alt.Common.{
  ℕ, ◌≡◌, refl, sym, ap, subst, ◌∙◌, Bool, true, false, Option, none, some, List, [], ◌∷◌, map,
  arith, ◌==◌, ==_iff, ==_self, keep, elem, Distinct, if◌then◌else◌, Bool-cases, inl, inr,
}
use guru_alt.Ingest.{Source, source_at, update_where, update_at}
use guru_alt.Ingest.Duplicates.{ids}

abbrev pub At : (Source → Type 0) → Option Source → Type 0
At P none = Unit
At P (some r) = P r

-- There is such a row.
abbrev pub Has : (Source → Type 0) → Option Source → Type 0
Has P none = ⊥
Has P (some r) = P r

pub Has-At : (P : Source → Type 0) (o : Option Source) → Has P o → At P o
Has-At P none h = tt
Has-At P (some r) h = h

pub Has-map :
    {P Q : Source → Type 0} → ((r : Source) → P r → Q r) → (o : Option Source) → Has P o → Has Q o
Has-map f none h = h
Has-map f (some r) h = f r h

abbrev pub Keeps : (Source → Source) → Type 0
Keeps f = (r : Source) → (f r).id ≡ r.id

pub both : (P Q : Source → Type 0) (o : Option Source) → At P o → At Q o → At (λ r. P r × Q r) o
both P Q none h k = tt
both P Q (some r) h k = (h, k)

pub At-map :
    {P Q : Source → Type 0} → ((r : Source) → P r → Q r) → (o : Option Source) → At P o → At Q o
At-map f none h = tt
At-map f (some r) h = f r h

pub At-some : (P : Source → Type 0) {r : Source} (o : Option Source) → o ≡ some r → At P o → P r
At-some P o e h = subst (At P) e h

pub At-known : (P : Source → Type 0) {r : Source} (o : Option Source) → o ≡ some r → P r → At P o
At-known P o e h = subst (At P) (sym e) h

pub source_at-id : (id : ℕ) (sources : List Source) → At (λ r. r.id ≡ id) (source_at id sources)
source_at-id id [] = tt
source_at-id id (x ∷ sources) = elim (Bool-cases (x.id == id)) [
  | inl hit ↦ rw hit ((==_iff x.id id).0 hit)
  | inr miss ↦ rw miss (source_at-id id sources)
]

pub map-At :
    (g : Source → Source)
    → Keeps g
    → (P Q : Source → Type 0) (id : ℕ) → ((r : Source) → r.id ≡ id → P r → Q (g r))
    → (sources : List Source) → At P (source_at id sources)
    → At Q (source_at id (map g sources))
map-At g keeps P Q id step [] h = tt
map-At g keeps P Q id step (x ∷ sources) h = elim (Bool-cases (x.id == id)) [
  | inl hit ↦
      let there : ((g x).id == id) ≡ true = ap (λ n. n == id) (keeps x) ∙ hit in
      rw there (
        step x ((==_iff x.id id).0 hit)
          (subst (λ b. At P (if b then some x else source_at id sources)) hit h))
  | inr miss ↦
      let there : ((g x).id == id) ≡ false = ap (λ n. n == id) (keeps x) ∙ miss in
      rw there (
        map-At g keeps P Q id step sources
          (subst (λ b. At P (if b then some x else source_at id sources)) miss h))
]

-- A row at another id is left alone.
pub update_at-elsewhere :
    (f : Source → Source)
    → Keeps f
    → (P : Source → Type 0) (id k : ℕ) → (k == id) ≡ false
    → (sources : List Source) → At P (source_at k sources)
    → At P (source_at k (update_at id f sources))
update_at-elsewhere f keeps P id k other sources h =
    map-At (λ r. if r.id == id then f r else r) (λ r. ground (arith, keeps r)) P P k
      (λ r e p. rw (ap (λ n. n == id) e ∙ other) p) sources h

pub update_at-here :
    (f : Source → Source)
    → Keeps f
    → (P Q : Source → Type 0) (id : ℕ) → ((r : Source) → P r → Q (f r))
    → (sources : List Source) → At P (source_at id sources)
    → At Q (source_at id (update_at id f sources))
update_at-here f keeps P Q id step sources h =
    map-At (λ r. if r.id == id then f r else r) (λ r. ground (arith, keeps r)) P Q id
      (λ r e p. rw (ap (λ n. n == id) e ∙ ==_self id) (step r p)) sources h

elem-ids-map :
    (g : Source → Source)
    → Keeps g
    → (a : ℕ) (sources : List Source) → elem a (ids (map g sources)) ≡ elem a (ids sources)
elem-ids-map g keeps a [] = refl
elem-ids-map g keeps a (x ∷ sources) = ground (arith, keeps x, elem-ids-map g keeps a sources)

pub ids-map-Distinct :
    (g : Source → Source)
    → Keeps g
    → (sources : List Source) → Distinct (ids sources)
    → Distinct (ids (map g sources))
ids-map-Distinct g keeps [] h = tt
ids-map-Distinct g keeps (x ∷ sources) h = (
  ap (λ a. elem a (ids (map g sources))) (keeps x) ∙ (elem-ids-map g keeps x.id sources ∙ h.0),
  ids-map-Distinct g keeps sources h.1,
)

elem-ids-keep :
    (p : Source → Bool) (a : ℕ) (sources : List Source)
    → elem a (ids (keep p sources)) ≡ true
    → elem a (ids sources) ≡ true
elem-ids-keep p a [] h = h
elem-ids-keep p a (x ∷ sources) h = ground (arith, elem-ids-keep p a sources)

pub ids-keep-Distinct :
    (p : Source → Bool) (sources : List Source)
    → Distinct (ids sources)
    → Distinct (ids (keep p sources))
ids-keep-Distinct p [] h = tt
ids-keep-Distinct p (x ∷ sources) h = elim (Bool-cases (p x)) [
  | inl fits ↦ rw fits (elim (Bool-cases (elem x.id (ids (keep p sources)))) [
    | inl again ↦ absurd (ground (arith, elem-ids-keep p x.id sources again))
    | inr once ↦ (once, ids-keep-Distinct p sources h.1)
  ])
  | inr misfit ↦ rw misfit (ids-keep-Distinct p sources h.1)
]

-- An id in the answer of a query is that of a row that fits, since it is the only row with that id.
pub kept-Has :
    (p : Source → Bool) (id : ℕ) (sources : List Source)
    → Distinct (ids sources)
    → elem id (ids (keep p sources)) ≡ true
    → Has (λ r. p r ≡ true) (source_at id sources)
kept-Has p id [] distinct h = absurd (ground arith)
kept-Has p id (x ∷ sources) distinct h = elim (Bool-cases (x.id == id)) [
  | inl hit ↦ rw hit (elim (Bool-cases (p x)) [
    | inl fits ↦ fits
    | inr misfit ↦
        absurd (ground (arith, elem-ids-keep p id sources, (==_iff x.id id).0 hit, distinct.0))
  ])
  | inr miss ↦ rw miss (kept-Has p id sources distinct.1 (ground arith))
]

-- What a row is found to be by its id, at the head of the table or behind it.
head-Has :
    (P : Source → Type 0) (id : ℕ) (x : Source) (sources : List Source)
    → (x.id == id) ≡ true
    → Has P (source_at id (x ∷ sources))
    → P x
head-Has P id x sources hit h =
    subst (λ b. Has P (if b then some x else source_at id sources)) hit h

tail-Has :
    (P : Source → Type 0) (id : ℕ) (x : Source) (sources : List Source)
    → (x.id == id) ≡ false
    → Has P (source_at id (x ∷ sources))
    → Has P (source_at id sources)
tail-Has P id x sources miss h =
    subst (λ b. Has P (if b then some x else source_at id sources)) miss h

-- A row that an update spares and a query asks for is in the answer after the update.
pub spared-kept :
    (q p : Source → Bool) (f : Source → Source) (id : ℕ) (sources : List Source)
    → Has (λ r. (q r ≡ false) × (p r ≡ true)) (source_at id sources)
    → elem id (ids (keep p (update_where q f sources))) ≡ true
spared-kept q p f id [] h = absurd h
spared-kept q p f id (x ∷ sources) h = elim (Bool-cases (x.id == id)) [
  | inl hit ↦ ground (arith, head-Has _ id x sources hit h, hit)
  | inr miss ↦ ground (arith, spared-kept q p f id sources (tail-Has _ id x sources miss h))
]

pub map-Has :
    (g : Source → Source)
    → Keeps g
    → (P Q : Source → Type 0) (id : ℕ) → ((r : Source) → r.id ≡ id → P r → Q (g r))
    → (sources : List Source) → Has P (source_at id sources)
    → Has Q (source_at id (map g sources))
map-Has g keeps P Q id step [] h = h
map-Has g keeps P Q id step (x ∷ sources) h = elim (Bool-cases (x.id == id)) [
  | inl hit ↦
      rw (ap (λ n. n == id) (keeps x) ∙ hit)
        (step x ((==_iff x.id id).0 hit) (head-Has P id x sources hit h))
  | inr miss ↦
      rw (ap (λ n. n == id) (keeps x) ∙ miss)
        (map-Has g keeps P Q id step sources (tail-Has P id x sources miss h))
]
