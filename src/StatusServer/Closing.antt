-- ===== src/StatusServer/Closing.antt =====
-- Which descriptors the status server closes.
use gh_ost_cpp.Base.{
  if◌then◌else◌, ℕ, ◌<◌, ◌≡◌, false, ◌&&◌, some, [], ◌∷◌, ◌++◌, append_assoc, arith,
}
use gh_ost_cpp.StatusServer.{
  StatusServer, Sockets, start, stop, create_socket, bind_socket, close_socket,
}

-- A server that starts on a port and is then stopped closes its descriptor once; one whose socket
-- cannot be bound or listened on closes it twice.
pub stop-start :
    (os : Sockets) (s : StatusServer) (fd port : ℕ)
    → s.running ≡ false
    → s.console.context.config.status_tcp_port ≡ some port
    → os.descriptor ≡ some fd
    → 0 < port
    → (stop (start os s).1).closed
      ≡ s.closed ++ (if os.binds && os.listens then fd ∷ [] else fd ∷ fd ∷ [])
unfolding start stop create_socket bind_socket close_socket
stop-start os s fd port r p d h = ground (arith, append_assoc s.closed (fd ∷ []) (fd ∷ []))
