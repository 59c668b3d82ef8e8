-- ===== src/Book/Engine/Routing.antt =====
-- Routing: a message reaches the book of its symbol, wherever its worker is, and no other book.
use chronicle_rs.Base.{
  ℕ, zero, suc, ◌<◌, ◌≡◌, refl, ap, List, [], ◌∷◌, Option, none, some, ◌==◌, if◌then◌else◌, length,
  get_elem?, set, lookup, lookup-insert, arith, Bool-cases, inl, inr, subst,
}
use chronicle_rs.Book
use chronicle_rs.Book.{L3Book, UnknownOrderPolicy, apply_event}
use chronicle_rs.Book.Engine.{SzseL3Worker, L3Message, book_of, worker_apply, worker_index, route}

get_elem-in {ℓ} :
    {A : Type ℓ} (xs : List A) (i : ℕ) → i < length xs → (a : A) × (get_elem? xs i ≡ some a)
get_elem-in [] i h = absurd (omega arith)
get_elem-in (x ∷ xs) zero h = (x, refl)
get_elem-in (x ∷ xs) (suc i) h = get_elem-in xs i (omega arith)

get_elem-set {ℓ} :
    {A : Type ℓ} (xs : List A) (i j : ℕ) (v : A)
    → i < length xs
    → get_elem? (set xs i v) j ≡ (if i == j then some v else get_elem? xs j)
get_elem-set [] i j v h = absurd (omega arith)
get_elem-set (x ∷ xs) zero zero v h = refl
get_elem-set (x ∷ xs) zero (suc j) v h = ground arith
get_elem-set (x ∷ xs) (suc i) zero v h = ground arith
get_elem-set (x ∷ xs) (suc i) (suc j) v h = ground (arith, get_elem-set xs i j v)

length-set {ℓ} : {A : Type ℓ} (xs : List A) (i : ℕ) (v : A) → length (set xs i v) ≡ length xs
length-set [] i v = refl
length-set (x ∷ xs) zero v = refl
length-set (x ∷ xs) (suc i) v = ap suc (length-set xs i v)

-- The book of a symbol among the workers.
unfoldable pub book_at : (ℕ → ℕ) → List SzseL3Worker → ℕ → Option L3Book
book_at hash workers symbol = elim (get_elem? workers (worker_index hash symbol (length workers))) [
  | none ↦ none
  | some worker ↦ lookup symbol worker
]

-- A book that is not there yet is an empty one.
unfoldable pub or_new : Option L3Book → L3Book
or_new none = Book.new
or_new (some b) = b

index-lt : (hash : ℕ → ℕ) (symbol n : ℕ) → 0 < n → worker_index hash symbol n < n
unfolding worker_index
index-lt hash symbol n h = omega arith

-- The worker after a message: the symbol's book is the one after the event, the others stay.
worker_books :
    (worker : SzseL3Worker) (msg : L3Message) (policy : UnknownOrderPolicy) (symbol : ℕ)
    → lookup symbol (worker_apply worker msg policy).0 ≡ (
        if msg.header.market_id == symbol
        then some
            (apply_event
              (or_new (lookup symbol worker))
              msg.header.exchange_ts_ns
              msg.event
              policy).0
        else lookup symbol worker)
unfolding worker_apply book_of or_new
worker_books worker msg policy symbol =
    let b : L3Book =
      (apply_event (book_of worker msg.header.market_id) msg.header.exchange_ts_ns msg.event
        policy).0 in
    ground (arith, lookup-insert msg.header.market_id symbol b worker)

route_hit :
    (hash : ℕ → ℕ) (workers : List SzseL3Worker) (msg : L3Message) (policy : UnknownOrderPolicy)
    (worker : SzseL3Worker)
    → get_elem? workers (worker_index hash msg.header.market_id (length workers)) ≡ some worker
    → (route hash workers msg policy).0
      ≡ set workers
          (worker_index hash msg.header.market_id (length workers))
          (worker_apply worker msg policy).0
unfolding route
route_hit hash workers msg policy worker h = rw (route, h) refl

book_at-set :
    (hash : ℕ → ℕ) (workers : List SzseL3Worker) (idx symbol : ℕ) (worker worker' : SzseL3Worker)
    → idx < length workers
    → get_elem? workers idx ≡ some worker
    → book_at hash (set workers idx worker') symbol ≡ (
        if idx == worker_index hash symbol (length workers)
        then lookup symbol worker'
        else book_at hash workers symbol)
unfolding book_at
book_at-set hash workers idx symbol worker worker' h e =
    let j : ℕ = worker_index hash symbol (length workers) in
    rw (book_at, length-set workers idx worker')
      (ground (arith, get_elem-set workers idx j worker' h))

book_at-hit :
    (hash : ℕ → ℕ) (workers : List SzseL3Worker) (symbol : ℕ) (worker : SzseL3Worker)
    → get_elem? workers (worker_index hash symbol (length workers)) ≡ some worker
    → book_at hash workers symbol ≡ lookup symbol worker
unfolding book_at
book_at-hit hash workers symbol worker h = rw (book_at, h) refl

-- Routing a message changes the book of its symbol by the event, whatever the hash, and leaves the
-- book of every other symbol as it is.
pub route-books :
    (hash : ℕ → ℕ) (workers : List SzseL3Worker) (msg : L3Message) (policy : UnknownOrderPolicy)
    (symbol : ℕ)
    → 0 < length workers
    → book_at hash (route hash workers msg policy).0 symbol ≡ (
        if msg.header.market_id == symbol
        then some
            (apply_event
              (or_new (book_at hash workers symbol))
              msg.header.exchange_ts_ns
              msg.event
              policy).0
        else book_at hash workers symbol)
route-books hash workers msg policy symbol some_worker =
    let n : ℕ = length workers in
    let market : ℕ = msg.header.market_id in
    let idx : ℕ = worker_index hash market n in
    let inside = index-lt hash market n some_worker in
    let (worker, h) = get_elem-in workers idx inside in
    let worker' : SzseL3Worker = (worker_apply worker msg policy).0 in
    let after = book_at-set hash workers idx symbol worker worker' inside h in
    let books = worker_books worker msg policy symbol in
    rw (route_hit hash workers msg policy worker h, after)
      (elim (Bool-cases (idx == worker_index hash symbol n)) [
        | inl shared ↦
            let same : idx ≡ worker_index hash symbol n = ground arith in
            let here =
              book_at-hit hash workers symbol worker
                (subst (λ i. get_elem? workers i ≡ some worker) same h) in
            rw (shared, here) books
        | inr apart ↦ ground (arith, ap (λ t. worker_index hash t n))
      ])
