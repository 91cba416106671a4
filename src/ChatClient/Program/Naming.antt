-- ===== src/ChatClient/Program/Naming.antt =====
-- What comes of the question for a name, and of `main` before its threads.
use chat_application.Prelude.{
  ℕ, ◌+◌, ◌≤◌, ◌<◌, ◌≡◌, ◌⊎◌, refl, ap, true, false, Bool, Option, none, some, Option-cases, inl,
  inr, List, [], ◌∷◌, ◌++◌, arith, length, ltb, Bool-cases,
}
use chat_application.CString.{Bytes}
use chat_application.CString.Laws.{write_text-fits}
use chat_application.Config.{awaiting_username}
use chat_application.ChatClient.{first_line}
use chat_application.ChatClient.Commands.{IsAccepted}
use chat_application.ChatClient.Limits.{name_command-IsAccepted}
use chat_application.ChatClient.Program.Names.{IsName, name_packet, name_command-Decided}
use chat_application.ChatClient.Display.{Shown}
use chat_application.ChatClient.Program.Start.{
  answer_name, get_username, Connection, connect_to_server, port_of, introduction, Opened, exits,
  asks, runs, with_name, connected, main, Surroundings,
}
use chat_application.ChatClient.Program.{threads_created}
use chat_application.UserInterface.{Layout, ui_init, output_window_height, input_window_height}
use chat_application.Prelude.Int.{ℤ}

-- An answer of `wgetnstr` that fits in `username`.
abbrev pub Fits : Option Bytes → Type 0
Fits none = Unit
Fits (some line) = length line ≤ 31

abbrev pub AllFit : List (Option Bytes) → Type 0
AllFit [] = Unit
AllFit (answer ∷ answers) = Fits answer × AllFit answers

-- What `wgetnstr` read is not a name that can be taken.
abbrev pub IsRefused : Option Bytes → Type 0
IsRefused none = Unit
IsRefused (some line) = ¬ IsName (first_line line)

abbrev pub AreRefused : List (Option Bytes) → Type 0
AreRefused [] = Unit
AreRefused (answer ∷ answers) = IsRefused answer × AreRefused answers

-- The first name among the answers: those before it are refused.
pub record FirstName (answers : List (Option Bytes)) (message : Bytes) : Type 0 where
  before : List (Option Bytes)
  line : Bytes
  after : List (Option Bytes)
  in_order : answers ≡ before ++ some line ∷ after
  refused_before : AreRefused before
  is_name : IsName (first_line line)
  with_name : message ≡ name_packet (first_line line)
  accepted : IsAccepted awaiting_username message

-- The loop asks until it is given a name.
pub data Asks (answers : List (Option Bytes)) : Option Bytes → Type 0 where
  asking : AreRefused answers → Asks answers none
  taken : {message : Bytes} → FirstName answers message → Asks answers (some message)

abbrev Asked : List (Option Bytes) → Type 0
Asked answers =
    (asked : List Shown × Option Bytes) × (get_username answers ≡ some asked) × Asks answers asked.1

once_more :
    (answer : Option Bytes) (answers : List (Option Bytes)) {result : Option Bytes}
    → IsRefused answer
    → Asks answers result
    → Asks (answer ∷ answers) result
once_more answer answers refused (asking all) = asking (refused, all)
once_more answer answers refused (taken f) = taken (record {
  before = answer ∷ f.before;
  line = f.line;
  after = f.after;
  in_order = ap (λ t. answer ∷ t) f.in_order;
  refused_before = (refused, f.refused_before);
  is_name = f.is_name;
  with_name = f.with_name;
  accepted = f.accepted;
})

get_username-Asks : (answers : List (Option Bytes)) → AllFit answers → Asked answers
unfolding get_username answer_name
get_username-Asks [] fit = (_, refl, asking tt)
get_username-Asks (none ∷ answers) fit =
    let (asked, e, h) = get_username-Asks answers fit.1 in
    rw e (_, refl, once_more none answers tt h)
get_username-Asks (some line ∷ answers) fit = elim (name_command-Decided line fit.0) [
  | inl (refused, e) ↦
      let (asked, g, h) = get_username-Asks answers fit.1 in
      rw (write_text-fits 32 line (omega (arith, fit.0)), e, g)
        (_, refl, once_more (some line) answers refused h)
  | inr (good, e) ↦
      rw (write_text-fits 32 line (omega (arith, fit.0)), e)
        (
          _,
          refl,
          taken (record {
            before = [];
            line = line;
            after = answers;
            in_order = refl;
            refused_before = tt;
            is_name = good;
            with_name = refl;
            accepted = name_command-IsAccepted line _ e;
          }),
        )
]

-- The connection of `main`: `socket` and `connect` have succeeded, and the address and the port are
-- those of the arguments.
pub record IsConnection (around : Surroundings) (server_ip : Bytes) (server_port : ℤ)
    (c : Connection) : Type 0 where
  opened : around.socket_fd ≡ some c.socket_fd
  accepted : around.connects ≡ true
  address :
      (around.inet_pton server_ip ≡ some c.sin_addr)
      ⊎ ((around.inet_pton server_ip ≡ none) × (c.sin_addr ≡ 0))
  port : c.sin_port ≡ port_of server_port

-- The windows do not fit on the terminal.
abbrev pub IsTooSmall : Surroundings → Type 0
IsTooSmall around =
    (around.screen_height < output_window_height + input_window_height + 1)
    ⊎ (around.screen_width < 6)

-- Where `main` comes to.
pub data Opens (around : Surroundings) (server_ip : Bytes) (server_port : ℤ) : Opened → Type 0 where
  not_connected :
      (around.socket_fd ≡ none) ⊎ (around.connects ≡ false)
      → Opens around server_ip server_port exits
  too_small : IsTooSmall around → Opens around server_ip server_port exits
  unnamed :
      {c : Connection} (shown : List Shown)
      → IsConnection around server_ip server_port c
      → ¬ IsTooSmall around
      → AreRefused around.answers
      → Opens around server_ip server_port (asks shown)
  not_sent :
      {message : Bytes}
      → FirstName around.answers message
      → around.name_sent ≡ false
      → Opens around server_ip server_port exits
  named :
      {c : Connection} {message : Bytes} (shown : List Shown)
      → IsConnection around server_ip server_port c
      → ¬ IsTooSmall around
      → FirstName around.answers message
      → around.name_sent ≡ true
      → Opens around server_ip server_port (runs c shown message threads_created)

-- Whether `connect_to_server` succeeds, for what `socket` and `connect` answer.
module _ (around : Surroundings) (server_ip : Bytes) (server_port : ℤ) where
  abbrev Connects : Option Connection → Type 0
  Connects none = (around.socket_fd ≡ none) ⊎ (around.connects ≡ false)
  Connects (some c) = IsConnection around server_ip server_port c

  connect_to_server-Connects :
      (socket_fd : Option ℕ) (connects : Bool)
      → around.socket_fd ≡ socket_fd
      → around.connects ≡ connects
      → Connects (connect_to_server around.inet_pton socket_fd connects server_ip server_port)
  unfolding connect_to_server
  connect_to_server-Connects none b e f = inl e
  connect_to_server-Connects (some fd) false e f = inr f
  connect_to_server-Connects (some fd) true e f = elim (Option-cases (around.inet_pton server_ip)) [
    | inl bad ↦ rw bad (record { opened = e; accepted = f; address = inr (bad, refl); port = refl })
    | inr (address, good) ↦
        rw good (record { opened = e; accepted = f; address = inl good; port = refl })
  ]

ui_init-IsTooSmall :
    (around : Surroundings)
    → ((ui_init around.screen_height around.screen_width ≡ none) × IsTooSmall around)
      ⊎ ((l : Layout) × (ui_init around.screen_height around.screen_width ≡ some l)
          × (¬ IsTooSmall around))
unfolding ui_init
ui_init-IsTooSmall around = elim (Bool-cases (ltb around.screen_height 24)) [
  | inl low ↦ rw low (inl (refl, inl (ground (arith, low))))
  | inr high ↦ elim (Bool-cases (ltb around.screen_width 6)) [
    | inl thin ↦ rw (high, thin) (inl (refl, inr (ground (arith, thin))))
    | inr wide ↦
        rw (high, wide)
          (inr (
            _,
            refl,
            λ s. elim s [
              | inl low ↦ ground (arith, low, high)
              | inr thin ↦ ground (arith, thin, wide)
            ],
          ))
  ]
]

module _ (around : Surroundings) (server_ip : Bytes) (server_port : ℤ) (c : Connection)
    (connection : IsConnection around server_ip server_port c) (wide : ¬ IsTooSmall around) where
  with_name-Opens :
      (name_sent : Bool) (shown more : List Shown) (result : Option Bytes)
      → around.name_sent ≡ name_sent
      → Asks around.answers result
      → Opens around server_ip server_port (with_name name_sent c shown (more, result))
  unfolding with_name
  with_name-Opens b shown more none sent (asking all) = unnamed (shown ++ more) connection wide all
  with_name-Opens false shown more (some _) sent (taken f) = not_sent f sent
  with_name-Opens true shown more (some _) sent (taken f) =
      named (shown ++ more) connection wide f sent

-- Run with two arguments, for answers of wgetnstr of at most 31 bytes, main does not write past a
-- buffer. It exits where there is no socket or it does not connect, where the terminal has fewer
-- than 24 lines or 6 columns, or where the name cannot be sent. Otherwise it has a connection to
-- the address and the port of its arguments, and asks while no answer is a name: a first line that
-- is not empty, has no whitespace, and is neither /exit nor HELP. After the first that is, once
-- its packet has been sent, the threads begin; and the checks of the server let that packet pass
-- for a client that waits for its name.
pub main-Opens :
    (around : Surroundings) (server_ip : Bytes) (server_port : ℤ) (digits : Bytes)
    → AllFit around.answers
    → (o : Opened) × (main around 3 server_ip server_port digits ≡ some o)
      × Opens around server_ip server_port o
unfolding main connected
main-Opens around server_ip server_port digits fit =
    let found =
      connect_to_server-Connects around server_ip server_port around.socket_fd around.connects refl
        refl in
    elim (Option-cases
      (connect_to_server around.inet_pton around.socket_fd around.connects server_ip server_port)) [
        | inl e ↦ rw e (exits, refl, not_connected (rw e at found))
        | inr (c, e) ↦ elim (ui_init-IsTooSmall around) [
          | inl (f, small) ↦ rw (e, f) (exits, refl, too_small small)
          | inr (l, f, wide) ↦
              let ((shown, result), g, h) = get_username-Asks around.answers fit in
              rw (e, f, g)
                (
                  _,
                  refl,
                  with_name-Opens around server_ip server_port c (rw e at found) wide
                      around.name_sent (introduction server_ip digits around.first_message) shown
                      result refl h,
                )
        ]
      ]
