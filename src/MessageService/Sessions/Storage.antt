-- ===== src/MessageService/Sessions/Storage.antt =====
-- The storage of clients while they come and go.
use simply_chat.Base.{
  ℕ, suc, ◌<◌, String, false, not, ◌≡◌, ◌≢◌, refl, sym, ◌∙◌, some, List, [], ◌∷◌, ◌++◌, map, select,
  contains, All, All-append, Distinct, Option-cases, Bool-cases, inl, inr, arith, ◌==◌, ==_iff,
  ne-of_==-false, string_eq, nat_eq, any-append,
}
use mathlib.Core.Path.{subst}
use simply_chat.Base.Sorting.{All-select, Distinct-select}
use simply_chat.Models.{Event}
use simply_chat.MessageService.Clients.{
  Client, ClientStorage, save_client, delete_client, find_client, without, hand_to,
}

abbrev pub Ident : Type 0
Ident = String × ℕ

abbrev pub ident : Client → Ident
ident c = (c.login, c.conn)

abbrev pub idents : ClientStorage → List Ident
idents s = map ident s.storage

-- `next` bounds the connections there have been, `ids` are those in use, and `closed` those closed.
pub record Sound (next : ℕ) (ids : List Ident) (closed : List ℕ) : Type 0 where
  pub logins : Distinct (λ (i : Ident). i.0) ids
  pub conns : Distinct (λ (i : Ident). i.1) ids
  pub unclosed : All (λ (i : Ident). contains i.1 closed ≡ false) ids
  pub once : Distinct (λ (n : ℕ). n) closed
  pub ids_old : All (λ (i : Ident). i.1 < next) ids
  pub closed_old : All (λ (n : ℕ). n < next) closed

abbrev others : String → List Ident → List Ident
others login ids = select (λ (i : Ident). not (i.0 == login)) ids

without-others :
    (login : String) (cs : List Client) → map ident (without login cs) ≡ others login (map ident cs)
without-others login [] = refl
without-others login (c ∷ cs) = ground (arith, without-others login cs)

All-map :
    {A : Type 0} {P Q : A → Type 0} (xs : List A) → ((x : A) → P x → Q x) → All P xs → All Q xs
All-map [] f h = tt
All-map (x ∷ xs) f h = (f x h.0, All-map xs f h.1)

All-both :
    {A : Type 0} (P Q : A → Type 0) (xs : List A) → All P xs → All Q xs → All (λ x. P x × Q x) xs
All-both P Q [] h k = tt
All-both P Q (x ∷ xs) h k = ((h.0, k.0), All-both P Q xs h.1 k.1)

others-apart :
    (login : String) (ids : List Ident) → All (λ (i : Ident). login ≢ i.0) (others login ids)
others-apart login [] = tt
others-apart login (i ∷ ids) = elim (Bool-cases (i.0 == login)) [
  | inl same ↦ rw same (others-apart login ids)
  | inr other ↦ rw other (λ e. ne-of_==-false i.0 login other (sym e), others-apart login ids)
]

-- The client that is found has what all have, and shares its connection with none of the others.
found-has :
    (P : Ident → Type 0) (login : String) (cs : List Client) (c : Client)
    → find_client login cs ≡ some c
    → All P (map ident cs)
    → P (ident c)
found-has P login [] c h all = absurd (ground arith)
found-has P login (d ∷ cs) c h all = elim (Bool-cases (d.login == login)) [
  | inl here ↦ let same : d ≡ c = ground (arith, h, here) in subst (λ e. P (ident e)) same all.0
  | inr other ↦ found-has P login cs c (ground (arith, h, other)) all.1
]

found-apart :
    (login : String) (cs : List Client) (c : Client)
    → find_client login cs ≡ some c
    → Distinct (λ (i : Ident). i.1) (map ident cs)
    → All (λ (i : Ident). c.conn ≢ i.1) (others login (map ident cs))
found-apart login [] c h d = tt
found-apart login (e ∷ cs) c h d = elim (Bool-cases (e.login == login)) [
  | inl here ↦
      let same : e ≡ c = ground (arith, h, here) in
      rw here (
        subst (λ c'. All (λ (i : Ident). c'.conn ≢ i.1) (others login (map ident cs))) same
          (All-select _ _ (map ident cs) d.0))
  | inr other ↦
      let found : find_client login cs ≡ some c = ground (arith, h, other) in
      rw other (
        λ same. found-has (λ (i : Ident). e.conn ≢ i.1) login cs c found d.0 (sym same),
        found-apart login cs c found d.1,
      )
]

Distinct-snoc :
    (n : ℕ) (ns : List ℕ)
    → contains n ns ≡ false
    → Distinct (λ (m : ℕ). m) ns
    → Distinct (λ (m : ℕ). m) (ns ++ n ∷ [])
Distinct-snoc n [] h d = (tt, tt)
Distinct-snoc n (m ∷ ns) h d = (
  All-append (λ k. m ≢ k) ns (n ∷ []) d.0 (λ same. ground (arith, h, same, ==_iff n m), tt),
  Distinct-snoc n ns (ground arith) d.1,
)

pub save_client-Sound :
    (login : String) (next : ℕ) (s : ClientStorage)
    → Sound next (idents s) s.closed
    → Sound (suc next) (idents (save_client login next s)) (save_client login next s).closed
unfolding save_client
save_client-Sound login next s h =
    let kept = others login (idents s) in
    let old : All (λ (i : Ident). i.1 < next) kept = All-select _ _ (idents s) h.ids_old in
    let fresh : contains next s.closed ≡ false = not_old next s.closed h.closed_old in
    rw (without-others login s.storage) (record {
      logins = (others-apart login (idents s), Distinct-select _ _ (idents s) h.logins);
      conns = (
        All-map kept (λ i lower same. omega (arith, lower, same)) old,
        Distinct-select _ _ (idents s) h.conns,
      );
      unclosed = (fresh, All-select _ _ (idents s) h.unclosed);
      once = h.once;
      ids_old = (omega arith, All-map kept (λ i lower. omega (arith, lower)) old);
      closed_old = All-map s.closed (λ n lower. omega (arith, lower)) h.closed_old;
    })
  where
    not_old : (next : ℕ) (ns : List ℕ) → All (λ (n : ℕ). n < next) ns → contains next ns ≡ false
    not_old next [] all = refl
    not_old next (n ∷ ns) all = ground (arith, not_old next ns all.1, all.0, ==_iff next n)

pub delete_client-Sound :
    (login : String) (next : ℕ) (s : ClientStorage)
    → Sound next (idents s) s.closed
    → Sound next (idents (delete_client login s)) (delete_client login s).closed
unfolding delete_client
delete_client-Sound login next s h = elim (Option-cases (find_client login s.storage)) [
  | inl offline ↦ rw offline h
  | inr (c, found) ↦
      let kept = others login (idents s) in
      let apart = found-apart login s.storage c found h.conns in
      let unclosed =
        All-select (λ (i : Ident). not (i.0 == login))
          (λ (i : Ident). contains i.1 s.closed ≡ false) (idents s) h.unclosed in
      rw found (
        rw (without-others login s.storage) (record {
          logins = Distinct-select _ _ (idents s) h.logins;
          conns = Distinct-select _ _ (idents s) h.conns;
          unclosed =
              All-map kept
                (λ i (differs, was).
                  any-append (λ n. i.1 == n) s.closed (c.conn ∷ [])
                  ∙ ground (arith, differs, was, ==_iff i.1 c.conn))
                (All-both (λ (i : Ident). c.conn ≢ i.1)
                  (λ (i : Ident). contains i.1 s.closed ≡ false) kept apart unclosed);
          once =
              Distinct-snoc c.conn s.closed
                (found-has (λ i. contains i.1 s.closed ≡ false) login s.storage c found h.unclosed)
                h.once;
          ids_old = All-select _ _ (idents s) h.ids_old;
          closed_old =
              All-append (λ n. n < next) s.closed (c.conn ∷ []) h.closed_old
                (found-has (λ i. i.1 < next) login s.storage c found h.ids_old, tt);
        }))
]

pub hand_to-idents :
    (login : String) (event : Event) (cs : List Client)
    → map ident (hand_to login event cs) ≡ map ident cs
hand_to-idents login event [] = refl
hand_to-idents login event (c ∷ cs) = ground (arith, hand_to-idents login event cs)
