-- ===== src/Launch/Queue.antt =====
-- service.go: startServiceIfNotAlreadyRunningAndConnect (13-58), a recursion with one turn for each look
-- at the running service, and connectToService (323-344). What a turn sees is its Look.
use large_model_proxy.Base.{Bool, true, false, List, [], ◌∷◌, Option, none, some, if◌then◌else◌}
use large_model_proxy.ChannelMutex.{ChannelMutex, Branch, try_lock, lock_or_cancel, unlock}

-- Whether the proxy is interrupted at the top of the turn, and behind TryLock; the mutex of the running
-- service, if there is one; what the select of LockOrCancel meets: the mutex as it is then, whether
-- the client has left, and the branch that it takes; and whether the client has left behind it.
pub record Look : Type 0 where
  pub interrupted : Bool
  pub found : Option ChannelMutex
  pub interrupted_waiting : Bool
  pub mutex : ChannelMutex
  pub left : Bool
  pub branch : Branch
  pub left_behind : Bool

-- How a turn ends. `stuck` is a select or an Unlock that blocks, or a turn that is still to come.
pub data Turn : Type 0 where
  gives_up starts connects looks_again stuck : Turn

-- The turn of a client that waits for the operation on the service to finish.
unfoldable pub queued_turn : Look → Turn
queued_turn l =
    if l.interrupted_waiting then gives_up else elim (lock_or_cancel l.left l.branch l.mutex) [
      | none ↦ stuck
      | some (m, false) ↦ gives_up
      | some (m, true) ↦ elim (unlock m) [
        | none ↦ stuck
        | some m' ↦ if l.left_behind then gives_up else looks_again
      ]
    ]

unfoldable pub take_turn : Look → Turn
unfolding queued_turn
take_turn l = if l.interrupted then gives_up else elim l.found [
  | none ↦ starts
  | some m ↦
      let (m', taken) = try_lock m in
      if taken then elim (unlock m') [ none ↦ stuck | some m'' ↦ connects ] else queued_turn l
]

unfoldable pub take_turns : List Look → Turn
unfolding take_turn
take_turns [] = stuck
take_turns (l ∷ looks) =
    let rest = take_turns looks in
    elim (take_turn l) [
      | gives_up ↦ gives_up
      | starts ↦ starts
      | connects ↦ connects
      | looks_again ↦ rest
      | stuck ↦ stuck
    ]

pub data Call : Type 0 where
  starts_service dials stops_service : Call

-- The answers to the calls: whether startService and the dial succeed, and whether the service is still
-- running behind a dial that failed.
pub record Answers : Type 0 where
  pub started : Bool
  pub dialed : Bool
  pub is_running : Bool

-- The calls and whether there is a connection; the flag is RestartOnConnectionFailure.
unfoldable pub connect_to_service : Bool → Answers → List Call × Bool
connect_to_service restart a =
    if a.dialed
    then (dials ∷ [], true)
    else if restart
    then (
      dials ∷ (if a.is_running then stops_service ∷ starts_service ∷ [] else starts_service ∷ []),
      a.started,
    )
    else (dials ∷ [], false)

abbrev pub behind_turns : Bool → Answers → Turn → List Call × Bool
behind_turns restart a starts = (starts_service ∷ [], a.started)
behind_turns restart a connects = connect_to_service restart a
behind_turns restart a _ = ([], false)

unfoldable pub start_service_if_not_already_running_and_connect :
    Bool → Answers → List Look → List Call × Bool
unfolding take_turns connect_to_service
start_service_if_not_already_running_and_connect restart a looks =
    behind_turns restart a (take_turns looks)
