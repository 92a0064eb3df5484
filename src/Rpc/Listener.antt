-- ===== src/Rpc/Listener.antt =====
-- rpc/rpc_server.cpp: `start`, `stop` and the accepting of connections. Nobody else changes the
-- socket's file in between.
use supervisorcpp.Prelude.{
  ℕ, suc, ◌-◌, ◌<◌, Bool, true, false, not, List, [], ◌∷◌, Option, none, some, if◌then◌else◌, ltb,
  ◌≡◌, ◌≢◌, refl, sym, ap, ◌∙◌, arith, Bool-cases, inl, inr,
}

-- The file of the socket: whether its permissions are 0600, and whether a server listens there.
pub record SocketFile : Type 0 where
  pub private_mode : Bool
  pub active : Bool

pub data Acceptor : Type 0 where
  closed opened listening : Acceptor

pub record RpcServer : Type 0 where
  pub running : Bool
  pub acceptor : Acceptor
  -- The `async_accept` that have not completed.
  pub pending : ℕ
  -- The connections that were started.
  pub connections : ℕ
  pub file : Option SocketFile

-- The constructor, over the file that stands at the path.
abbrev pub create_server : Option SocketFile → RpcServer
create_server file = record {
  running = false;
  acceptor = closed;
  pending = 0;
  connections = 0;
  file = file;
}

abbrev is_active : Option SocketFile → Bool
is_active none = false
is_active (some f) = f.active

unfoldable pub start_accept : RpcServer → RpcServer
start_accept s = record s { pending = suc s.pending }

-- `start` from the opening of the acceptor on, which throws where it is open already; `binds` and
-- `permits` are whether the calls for it succeed. The result is whether `start` returns.
unfoldable pub open_acceptor : Bool → Bool → RpcServer → RpcServer × Bool
unfolding start_accept
open_acceptor binds permits s = elim s.acceptor [
  | opened ↦ (s, false)
  | listening ↦ (s, false)
  | closed ↦
      if not binds
      then (record s { acceptor = opened }, false)
      else if not permits
      then (
        record s {
          acceptor = opened;
          file = some (record { private_mode = false; active = false });
        },
        false,
      )
      else (
        start_accept (record s {
          acceptor = listening;
          running = true;
          file = some (record { private_mode = true; active = true });
        }),
        true,
      )
]

-- `start`; `directory` is whether the directory of the socket passes its check.
unfoldable pub start : Bool → Bool → Bool → RpcServer → RpcServer × Bool
unfolding open_acceptor
start directory binds permits s =
    if not directory
    then (s, false)
    else if is_active s.file
    then (s, false)
    else open_acceptor binds permits (record s { file = none })

unfoldable pub stop : RpcServer → RpcServer
stop s = if not s.running then s else record s { running = false; acceptor = closed; file = none }

-- `handle_accept_`, which completes one accept, with an error or without.
unfoldable pub handle_accept : Bool → RpcServer → RpcServer
unfolding start_accept
handle_accept failed s =
    let done = record s {
      pending = s.pending - 1;
      connections = if failed then s.connections else suc s.connections;
    } in
    if s.running then start_accept done else done

-- What can happen; an accept completes only where one is pending.
pub data Event : Type 0 where
  starts : Bool → Bool → Bool → Event
  stops : Event
  accepts : Bool → Event

unfoldable pub happens : Event → RpcServer → RpcServer
unfolding start stop handle_accept
happens (starts directory binds permits) s = (start directory binds permits s).0
happens stops s = stop s
happens (accepts failed) s = if ltb 0 s.pending then handle_accept failed s else s

unfoldable pub happen : List Event → RpcServer → RpcServer
unfolding happens
happen [] s = s
happen (e ∷ r) s = happen r (happens e s)

-- The server accepts connections exactly while it runs, an accept is pending then, and whatever
-- listens is closed to other users.
pub record IsServing (s : RpcServer) : Type 0 where
  pub accepting : s.running ≡ true → 0 < s.pending
  pub open_if_running : s.running ≡ true → s.acceptor ≡ listening
  pub running_if_open : s.acceptor ≡ listening → s.running ≡ true
  pub guarded :
      s.acceptor ≡ listening → s.file ≡ some (record { private_mode = true; active = true })

idle : (s : RpcServer) → s.running ≡ false → s.acceptor ≢ listening → IsServing s
idle s r a = record {
  accepting = λ h. absurd (cc (sym r ∙ h));
  open_if_running = λ h. absurd (cc (sym r ∙ h));
  running_if_open = λ h. absurd (a h);
  guarded = λ h. absurd (a h);
}

open_acceptor-IsServing :
    (binds permits : Bool) (s : RpcServer)
    → s.running ≡ false
    → s.acceptor ≢ listening
    → IsServing (open_acceptor binds permits s).0
unfolding open_acceptor start_accept
open_acceptor-IsServing binds permits s r a = go binds permits s.acceptor refl
  where
    go : (b p : Bool) (x : Acceptor) → s.acceptor ≡ x → IsServing (open_acceptor b p s).0
    go b p listening e = absurd (a e)
    go b p opened e = rw e (idle _ r (λ h. cc h))
    go false p closed e = rw e (idle _ r (λ h. cc h))
    go true false closed e = rw e (idle _ r (λ h. cc h))
    go true true closed e = rw e (record {
      accepting = λ h. omega arith;
      open_if_running = λ h. refl;
      running_if_open = λ h. refl;
      guarded = λ h. refl;
    })

-- What is not active is not listened to, and so the server does not run.
inactive :
    (s : RpcServer)
    → IsServing s
    → is_active s.file ≡ false
    → (s.running ≡ false) × (s.acceptor ≢ listening)
inactive s i h =
    let shut : s.acceptor ≢ listening = λ e. cc (sym h ∙ ap is_active (i.guarded e)) in
    (
      elim (Bool-cases s.running) [
        | inl up ↦ absurd (shut (i.open_if_running up))
        | inr down ↦ down
      ],
      shut,
    )

pub start-IsServing :
    (directory binds permits : Bool) (s : RpcServer)
    → IsServing s
    → IsServing (start directory binds permits s).0
unfolding start
start-IsServing false binds permits s i = i
start-IsServing true binds permits s i = elim (Bool-cases (is_active s.file)) [
  | inl active ↦ rw active i
  | inr free ↦
      let (down, shut) = inactive s i free in
      rw free (open_acceptor-IsServing binds permits (record s { file = none }) down shut)
]

pub stop-IsServing : (s : RpcServer) → IsServing s → IsServing (stop s)
unfolding stop
stop-IsServing s i = elim (Bool-cases s.running) [
  | inl up ↦ rw up (idle _ refl (λ h. cc h))
  | inr down ↦ simp down i
]

handle_accept-IsServing :
    (failed : Bool) (s : RpcServer) → IsServing s → IsServing (handle_accept failed s)
unfolding handle_accept start_accept
handle_accept-IsServing failed s i = elim (Bool-cases s.running) [
  | inl up ↦ rw up (record {
    accepting = λ h. omega arith;
    open_if_running = λ h. i.open_if_running up;
    running_if_open = λ h. refl;
    guarded = λ h. i.guarded h;
  })
  | inr down ↦ rw down (idle _ refl (λ e. cc (sym down ∙ i.running_if_open e)))
]

happens-IsServing : (e : Event) (s : RpcServer) → IsServing s → IsServing (happens e s)
unfolding happens
happens-IsServing (starts directory binds permits) s i = start-IsServing directory binds permits s i
happens-IsServing stops s i = stop-IsServing s i
happens-IsServing (accepts failed) s i = elim (Bool-cases (ltb 0 s.pending)) [
  | inl waits ↦ rw waits (handle_accept-IsServing failed s i)
  | inr idle_now ↦ rw idle_now i
]

-- A server that was stopped does not listen.
pub stop-closed : (s : RpcServer) → IsServing s → (stop s).acceptor ≢ listening
unfolding stop
stop-closed s i e = elim (Bool-cases s.running) [
  | inl up ↦ absurd (ground (arith, e, up))
  | inr down ↦ absurd (cc (sym down ∙ i.running_if_open (ground (arith, e, down))))
]

pub happen-kept : (events : List Event) (s : RpcServer) → IsServing s → IsServing (happen events s)
unfolding happen
happen-kept [] s i = i
happen-kept (e ∷ r) s i = happen-kept r (happens e s) (happens-IsServing e s i)

-- Whatever file stood at the path, and however starts, whose steps may each fail, stops and accepts
-- follow each other: the acceptor listens exactly while the server runs, an accept is pending then,
-- and a socket that is listened to has the permissions 0600.
pub happen-IsServing :
    (file : Option SocketFile) (events : List Event)
    → IsServing (happen events (create_server file))
happen-IsServing file events =
    happen-kept events (create_server file) (idle (create_server file) refl (λ h. cc h))
