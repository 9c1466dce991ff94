-- ===== src/MessageService/FanOut/Stopped.antt =====
-- The loop of fanOutMessage, where it ends at a client that takes nothing.
use simply_chat.Base.{
  String, false, ◌≡◌, refl, sym, ap, ◌∙◌, List, [], ◌∷◌, ◌++◌, contains, Distinct, err, Bool-cases,
  Option-cases, inl, inr, arith, ◌==◌, string_eq,
}
use simply_chat.Models.{Event, EventSendMessagePayload}
use simply_chat.MessageService.Clients.{
  ClientStorage, get_client, hand_to, find_client, find_client-hand_to,
}
use simply_chat.MessageService.FanOut.{
  FanOutError, deliver, after, is_receiver, not_contains, after-sender, after-member, offline_same,
}

-- The members before one of them have got the message, and nobody else anything.
abbrev pub UpTo : EventSendMessagePayload → List String → ClientStorage → ClientStorage → Type 0
UpTo payload members s t =
    (got : List String) × (stuck : String) × (rest : List String) × (members ≡ got ++ stuck ∷ rest)
    × ((login : String) → get_client login t ≡ after payload got login (get_client login s))

not_contains-before :
    (m stuck : String) (got rest : List String)
    → contains m (got ++ stuck ∷ rest) ≡ false
    → contains m got ≡ false
not_contains-before m stuck [] rest h = refl
not_contains-before m stuck (y ∷ got) rest h =
    ground (arith, h, not_contains-before m stuck got rest)

pub deliver-UpTo :
    (payload : EventSendMessagePayload) (members : List String) (s : ClientStorage)
    (e : FanOutError)
    → Distinct (λ (m : String). m) members
    → (deliver payload members s).0 ≡ err e
    → UpTo payload members s (deliver payload members s).1
unfolding deliver get_client is_receiver
deliver-UpTo payload [] s e d h = absurd (ground (arith, h))
deliver-UpTo payload (m ∷ members) s e d h =
    let outside = not_contains m members d.0 in
    elim (Bool-cases (m == payload.sender_login)) [
      | inl sender ↦
          let (got, stuck, rest, same, all) =
            deliver-UpTo payload members s e d.1 (ground (arith, h, sender)) in
          rw sender (
            m ∷ got,
            stuck,
            rest,
            ap (λ l. m ∷ l) same,
            λ login.
                all login ∙ after-sender payload m login got (find_client login s.storage) sender,
          )
      | inr other ↦ elim (Option-cases (get_client m s)) [
        | inl offline ↦
            let (got, stuck, rest, same, all) =
              deliver-UpTo payload members s e d.1 (ground (arith, h, other, offline)) in
            rw (other, offline)
              (
                m ∷ got,
                stuck,
                rest,
                ap (λ l. m ∷ l) same,
                λ login.
                    all login
                    ∙ ap (after payload got login) (sym (offline_same payload m login s offline))
                    ∙ after-member payload m login got (find_client login s.storage) other
                        (not_contains-before m stuck got rest (rw same at outside)),
              )
        | inr (c, online) ↦ elim (Bool-cases c.stalled) [
          | inl stalled ↦ rw (other, online, stalled) ([], m, members, refl, λ login. refl)
          | inr ready ↦
              let t : ClientStorage = record s {
                storage = hand_to m (Event.send_message payload) s.storage;
              } in
              let (got, stuck, rest, same, all) =
                deliver-UpTo payload members t e d.1 (ground (arith, h, other, online, ready)) in
              rw (other, online, ready)
                (
                  m ∷ got,
                  stuck,
                  rest,
                  ap (λ l. m ∷ l) same,
                  λ login.
                      all login
                      ∙ ap (after payload got login)
                          (find_client-hand_to m login (Event.send_message payload) s.storage)
                      ∙ after-member payload m login got (find_client login s.storage) other
                          (not_contains-before m stuck got rest (rw same at outside)),
                )
        ]
      ]
    ]
