-- ===== src/Dtls/Reachable.antt =====
-- The OpenSSL listener and its connections in every order of their steps (loft/src/dtls.rs).
use loft.Prelude.{ℕ, ◌≡◌, some, List, ◌∷◌, All}
use loft.Prelude.Eq.{nat_eq, pair_eq}
use loft.Prelude.Assoc.{lookup, Distinct}
use loft.Quota.Defs.{ip_eq}
use loft.Quota.Books
use loft.Quota.Books.{IsSettled, release-IsSettled}
use loft.Demux.{SocketAddr}
use loft.Shim.Session.{Credentials}
use loft.Listener.Rounds.{CallsOf}
use loft.Dtls.Cookie.{Signer}
use loft.Dtls.Listen.{Accepts}
use loft.Dtls.Connection.{Thread}
use loft.Dtls.World.{World}
use loft.Dtls.Tidy.{IsTidy}
use loft.Dtls.Rounds.{Has}

-- Among the cookies that were presented, one that came in a datagram of the source and that the listener
-- accepts from it.
pub data IsVerified (sign : Signer) (peer : SocketAddr)
    : List (SocketAddr × List (List ℕ)) → Type 0 where
  here :
      (cookies : List (List ℕ)) (rest : List (SocketAddr × List (List ℕ)))
      → Accepts sign peer cookies
      → IsVerified sign peer ((peer, cookies) ∷ rest)
  there :
      (d : SocketAddr × List (List ℕ)) (rest : List (SocketAddr × List (List ℕ)))
      → IsVerified sign peer rest
      → IsVerified sign peer (d ∷ rest)

abbrev pub Presented : Type 0
Presented = List (SocketAddr × List (List ℕ))

-- What holds of one thread.
pub record IsOrderly (sign : Signer) (P : Credentials → Type 0) (shown : Presented) (t : Thread)
    : Type 0 where
  pub verified : IsVerified sign t.peer shown
  pub pinned : t.stream.io.peer ≡ t.peer
  pub has : (who : Credentials) → Has t who → P who

-- What holds of the whole.
pub record IsSound (sign : Signer) (P : Credentials → Type 0) (w : World) : Type 0 where
  pub tidy : IsTidy w.elsewhere w.threads w.listener
  pub distinct : Distinct w.threads
  pub orderly : (c : ℕ) (t : Thread) → lookup c w.threads ≡ some t → IsOrderly sign P w.presented t
  pub calls : CallsOf P w.shared.calls
  pub written : All (λ (d : SocketAddr × List ℕ). IsVerified sign d.0 w.presented) w.shared.written
