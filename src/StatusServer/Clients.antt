-- ===== src/StatusServer/Clients.antt =====
-- What the clients of the status server can change.
use gh_ost_cpp.Base.{Option, none, some}
use gh_ost_cpp.Commands.{Console}
use gh_ost_cpp.Commands.Effects.{ChangesSettings}
use gh_ost_cpp.StatusServer.{serves, terminates, Served}

abbrev KeepsAll : Console → Served → Type 0
KeepsAll c (serves sent next) = ChangesSettings c next
KeepsAll c terminates = Unit

abbrev KeepsIn : Console → Option Console → Type 0
KeepsIn c none = Unit
KeepsIn c (some next) = ChangesSettings c next
