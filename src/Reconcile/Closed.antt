-- ===== src/Reconcile/Closed.antt =====
-- Which stored orders are marked as closed.
use meva_beta_alpha_codex.Base.{
  ℕ, zero, suc, ◌≡◌, refl, sym, ap, ◌∙◌, Bool, true, false, not, ◌&&◌, ◌||◌, Option, none, some,
  List, [], ◌∷◌, any, nat_beq, nat_beq_iff, if◌then◌else◌, if_intro, Bool-cases, inl, inr, is_some,
  arith, number_key,
}
use meva_beta_alpha_codex.Base.Dict.{Dict, lookup, IsKeyed, insert-IsKeyed, lookup-insert}
use meva_beta_alpha_codex.Stage4.{OrderMode, dry_run, live, external, Order}
use meva_beta_alpha_codex.Reconcile.{
  exchange_by_client, db_by_client, put_by_id, is_external, Findings, enrich, found_or_closed,
  compare_stored, resolve,
}

-- A stored order, if there is one, of a symbol that is not blocked, and none on the exchange.
abbrev is_gone : (blocked : ℕ → Bool) → (stored found : Option Order) → Bool
is_gone blocked none found = false
is_gone blocked (some o) found = not (blocked o.symbol) && not (is_some found)

-- The same, by whether the exchange lists one.
abbrev pub closes : (blocked : ℕ → Bool) (stored : Option Order) (listed : Bool) → Bool
closes blocked none listed = false
closes blocked (some o) listed = not (blocked o.symbol) && not listed

abbrev pub or_else : Option Order → Option Order → Option Order
or_else (some o) other = some o
or_else none other = other

or_else-none : (found : Option Order) → or_else found none ≡ found
or_else-none none = refl
or_else-none (some o) = refl

or_false : (b : Bool) → (b || false) ≡ b
or_false b = ground arith

put_by_id-IsKeyed :
    (id : Option ℕ) (o : Order) (d : Dict ℕ Order) → IsKeyed d → IsKeyed (put_by_id id o d)
put_by_id-IsKeyed none o d h = h
put_by_id-IsKeyed (some zero) o d h = h
put_by_id-IsKeyed (some (suc id)) o d h = insert-IsKeyed (suc id) o d h

db_by_client-IsKeyed :
    (orders : List Order) (d : Dict ℕ Order) → IsKeyed d → IsKeyed (db_by_client orders d)
unfolding db_by_client
db_by_client-IsKeyed [] d h = h
db_by_client-IsKeyed (o ∷ rest) d h =
    db_by_client-IsKeyed rest _ (
      if_intro IsKeyed (is_external o.mode) (λ e. h) λ e. put_by_id-IsKeyed o.client_order_id o d h)

enrich-closed :
    (id : ℕ) (stored found : Option ℕ) (f : Findings) → (enrich id stored found f).closed ≡ f.closed
enrich-closed id none none f = refl
enrich-closed id none (some zero) f = refl
enrich-closed id none (some (suc e)) f = refl
enrich-closed id (some zero) none f = refl
enrich-closed id (some zero) (some zero) f = refl
enrich-closed id (some zero) (some (suc e)) f = refl
enrich-closed id (some (suc s)) found f = refl

found_or_closed-any :
    (j id : ℕ) (o : Order) (found : Option Order) (f : Findings)
    → any (nat_beq j) (found_or_closed id o found f).closed
      ≡ (nat_beq j id && not (is_some found)) || any (nat_beq j) f.closed
found_or_closed-any j id o none f = ground arith
found_or_closed-any j id o (some found) f =
    ap (any (nat_beq j)) (enrich-closed id o.exchange_order_id found.exchange_order_id f)
    ∙ ground arith

step-any :
    (j id : ℕ) (b : Bool) (o : Order) (found : Option Order) (f : Findings)
    → any (nat_beq j) (if b then f else found_or_closed id o found f).closed
      ≡ (nat_beq j id && (not b && not (is_some found))) || any (nat_beq j) f.closed
step-any j id true o found f = ground arith
step-any j id false o found f = found_or_closed-any j id o found f

or_false_right : (a b : Bool) → b ≡ false → (a || b) ≡ a
or_false_right a b h = ground (arith, h)

compare_stored-closed :
    (blocked : ℕ → Bool) (exchange : Dict ℕ Order) (id : ℕ) (db : Dict ℕ Order)
    → IsKeyed db
    → any (nat_beq id) (compare_stored blocked exchange db).closed
      ≡ is_gone blocked (lookup id db) (lookup id exchange)
unfolding compare_stored
compare_stored-closed blocked exchange id [] h = refl
compare_stored-closed blocked exchange id ((k, o) ∷ rest) h =
    let gone : Option Order → Bool = λ found. not (blocked o.symbol) && not (is_some found) in
    let later = is_gone blocked (lookup id rest) (lookup id exchange) in
    let stepped : any (nat_beq id) (compare_stored blocked exchange ((k, o) ∷ rest)).closed
        ≡ (nat_beq id k && gone (lookup k exchange)) || later =
      step-any id k (blocked o.symbol) o (lookup k exchange) (compare_stored blocked exchange rest)
      ∙ ap (λ b. (nat_beq id k && gone (lookup k exchange)) || b)
          (compare_stored-closed blocked exchange id rest h.1) in
    stepped ∙ elim (Bool-cases (nat_beq id k)) [
      | inl e ↦
          let same : id ≡ k = (nat_beq_iff id k).0 e in
          let none_later : later ≡ false =
            ap (λ found. is_gone blocked found (lookup id exchange))
              (ap (λ j. lookup j rest) same ∙ h.0) in
          rw e (
            or_false_right (gone (lookup k exchange)) later none_later
            ∙ ap (λ j. gone (lookup j exchange)) (sym same))
      | inr e ↦ rw e refl
    ]

-- The order goes by this id, which is not the empty one.
abbrev has_id : ℕ → Option ℕ → Bool
has_id id none = false
has_id id (some own) = nat_beq id own && not (nat_beq own 0)

abbrev pub named : ℕ → Order → Bool
named id o = has_id id o.client_order_id

abbrev is_own_mode : OrderMode → Bool
is_own_mode dry_run = true
is_own_mode live = true
is_own_mode external = false

-- An order that the bot placed itself, under this id.
abbrev pub is_own : ℕ → Order → Bool
is_own id o = is_own_mode o.mode && named id o

-- The last order that passes a test.
abbrev pub last_with : (Order → Bool) → List Order → Option Order
last_with p [] = none
last_with p (o ∷ rest) = or_else (last_with p rest) (if p o then some o else none)

put_by_id-lookup :
    (id : ℕ) (own : Option ℕ) (o : Order) (d : Dict ℕ Order)
    → lookup id (put_by_id own o d) ≡ (if has_id id own then some o else lookup id d)
put_by_id-lookup id none o d = refl
put_by_id-lookup id (some zero) o d = ground arith
put_by_id-lookup id (some (suc own)) o d = lookup-insert id (suc own) o d ∙ ground arith

own-lookup :
    (id : ℕ) (mode : OrderMode) (own : Option ℕ) (o : Order) (d : Dict ℕ Order)
    → lookup id (if is_external mode then d else put_by_id own o d)
      ≡ (if is_own_mode mode && has_id id own then some o else lookup id d)
own-lookup id dry_run own o d = put_by_id-lookup id own o d
own-lookup id live own o d = put_by_id-lookup id own o d
own-lookup id external own o d = refl

or_else-later :
    (later : Option Order) (b : Bool) (o : Order) (before : Option Order)
    → or_else later (if b then some o else before)
      ≡ or_else (or_else later (if b then some o else none)) before
or_else-later (some l) b o before = refl
or_else-later none true o before = refl
or_else-later none false o before = refl

db_by_client-lookup :
    (id : ℕ) (orders : List Order) (d : Dict ℕ Order)
    → lookup id (db_by_client orders d) ≡ or_else (last_with (is_own id) orders) (lookup id d)
unfolding db_by_client
db_by_client-lookup id [] d = refl
db_by_client-lookup id (o ∷ rest) d =
    db_by_client-lookup id rest _
    ∙ ap (or_else (last_with (is_own id) rest)) (own-lookup id o.mode o.client_order_id o d)
    ∙ or_else-later (last_with (is_own id) rest) (is_own id o) o (lookup id d)

listed_step :
    (id : ℕ) (own : Option ℕ) (o : Order) (d : Dict ℕ Order) (later : Bool)
    → (later || is_some (lookup id (put_by_id own o d)))
      ≡ ((has_id id own || later) || is_some (lookup id d))
listed_step id own o d later =
    ap (λ found. later || is_some found) (put_by_id-lookup id own o d) ∙ ground arith

exchange_by_client-lookup :
    (id : ℕ) (orders : List Order) (d : Dict ℕ Order)
    → is_some (lookup id (exchange_by_client orders d))
      ≡ (any (named id) orders || is_some (lookup id d))
unfolding exchange_by_client
exchange_by_client-lookup id [] d = refl
exchange_by_client-lookup id (o ∷ rest) d =
    exchange_by_client-lookup id rest _ ∙ listed_step id o.client_order_id o d (any (named id) rest)

is_gone-some :
    (blocked : ℕ → Bool) (stored found : Option Order) (listed : Bool)
    → is_some found ≡ listed
    → is_gone blocked stored found ≡ closes blocked stored listed
is_gone-some blocked none found listed h = refl
is_gone-some blocked (some o) found listed h = ap (λ b. not (blocked o.symbol) && not b) h

-- An id is marked as closed if and only if a stored order that the bot placed itself, not an external
-- one, goes by it, the last such order has a symbol that is not blocked, and no order that the
-- exchange lists goes by it.
pub resolve-closed :
    (exchange_orders db_orders : List Order) (blocked : ℕ → Bool) (id : ℕ)
    → any (nat_beq id) (resolve exchange_orders db_orders blocked).mark_unknown_closed
      ≡ closes blocked (last_with (is_own id) db_orders) (any (named id) exchange_orders)
unfolding resolve
resolve-closed exchange_orders db_orders blocked id =
    let exchange = exchange_by_client exchange_orders [] in
    let db = db_by_client db_orders [] in
    let listed : is_some (lookup id exchange) ≡ any (named id) exchange_orders =
      exchange_by_client-lookup id exchange_orders [] ∙ or_false (any (named id) exchange_orders) in
    compare_stored-closed blocked exchange id db (db_by_client-IsKeyed db_orders [] tt)
    ∙ is_gone-some blocked (lookup id db) (lookup id exchange) _ listed
    ∙ ap (λ stored. closes blocked stored (any (named id) exchange_orders))
        (db_by_client-lookup id db_orders [] ∙ or_else-none (last_with (is_own id) db_orders))
