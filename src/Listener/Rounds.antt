-- ===== src/Listener/Rounds.antt =====
-- What one round of a session's loops in loft/src/dtls_mbed.rs may do, whatever the library does in it.
use loft.Prelude.{ℕ, ◌≡◌, ◌⊎◌, inl, inr, refl, ◌∙◌, false, some, List, [], ◌∷◌, All}
use loft.Handler.Types.{Call}
use loft.Shim.Session.{Credentials}
use loft.Shim.Config.{ResolvedPsk, resolved}
use loft.Listener.Cookie.{transport_id}
use loft.Listener.Library.{Outside, Context, Callback, Authenticated}
use loft.Listener.Calls.{call-Pinned, call-credentials}
use loft.Listener.Thread.{Thread, Shared, Round, library}

-- The credentials in a session, or those of the device that it serves.
abbrev pub Has : Thread → Credentials → Type 0
Has t who = (t.session.credentials ≡ some who) ⊎ (t.device ≡ some who)

abbrev pub CallsOf : (Credentials → Type 0) → List Call → Type 0
CallsOf P calls = All (λ (c : Call). P (c.pigeon_id, c.bearer)) calls

-- Every resolution gives credentials that `P` holds of.
abbrev pub Grants : (Credentials → Type 0) → Outside → Type 0
Grants P o = (id : List ℕ) (r : ResolvedPsk) → o.resolve id ≡ resolved r → P (r.identity, r.token)

-- What stays of a thread and its surroundings in a round.
pub record Kept (P : Credentials → Type 0) (before after : Round) : Type 0 where
  pub peer : after.0.peer ≡ before.0.peer
  pub cid : after.0.cid ≡ before.0.cid
  pub permit : after.0.permit ≡ before.0.permit
  pub has :
      ((who : Credentials) → Has before.0 who → P who)
      → (who : Credentials) → Has after.0 who
      → P who
  pub calls :
      ((who : Credentials) → Has before.0 who → P who)
      → CallsOf P before.1.calls
      → CallsOf P after.1.calls

-- What also stays while the session serves, and in a call of the library.
pub record Steady (before after : Thread) : Type 0 where
  pub established : after.is_established ≡ before.is_established
  pub cid_active : after.cid_active ≡ before.cid_active
  pub pinned :
      before.cid_active ≡ false → after.session.io.committed_peer ≡ before.session.io.committed_peer

-- Calls with the credentials of one session.
pub own-CallsOf :
    (P : Credentials → Type 0) (who : Credentials) (calls : List Call)
    → P who
    → All (λ (c : Call). (c.pigeon_id ≡ who.0) × (c.bearer ≡ who.1)) calls
    → CallsOf P calls
own-CallsOf P who [] p own = tt
own-CallsOf P who (c ∷ calls) p own = (rw (own.0.0, own.0.1) p, own-CallsOf P who calls p own.1)

module _ (P : Credentials → Type 0) where
  pub same : (r : Round) → Kept P r r
  same r = record { peer = refl; cid = refl; permit = refl; has = λ ok. ok; calls = λ ok h. h }

  pub then_ : (a b c : Round) → Kept P a b → Kept P b c → Kept P a c
  then_ a b c first second = record {
    peer = second.peer ∙ first.peer;
    cid = second.cid ∙ first.cid;
    permit = second.permit ∙ first.permit;
    has = λ ok. second.has (first.has ok);
    calls = λ ok h. second.calls (first.has ok) (first.calls ok h);
  }

  module _ (o : Outside) (grants : Grants P o) where
    pub authenticated-granted :
        (who : Credentials) (cs : List Callback) → Authenticated o who cs → P who
    authenticated-granted who [] none_ = elim none_ [ ]
    authenticated-granted who (_ ∷ cs) (Authenticated.here id rc cs' r e it) = rw it (grants _ r e)
    authenticated-granted who (c ∷ cs) (Authenticated.there c' cs' later) =
        authenticated-granted who cs later

    pub library-Kept :
        (cs : List Callback) (t : Thread) (w : Shared) → Kept P (t, w) (library o cs t w)
    unfolding library
    library-Kept cs t w =
        let x : Context = record {
          session = t.session;
          verified = w.verified;
          client_id = transport_id t.peer;
          sent = w.sent;
        } in
        record {
          peer = refl;
          cid = refl;
          permit = refl;
          has = λ ok who h. elim h [
            | inr dev ↦ ok who (inr dev)
            | inl held ↦ elim (call-credentials o cs x who held) [
              | inl now ↦ authenticated-granted who cs now
              | inr before ↦ ok who (inl before)
            ]
          ];
          calls = λ ok h. h;
        }

    pub library-Steady :
        (cs : List Callback) (t : Thread) (w : Shared) → Steady t (library o cs t w).0
    unfolding library
    library-Steady cs t w =
        let pins = call-Pinned o cs (record {
          session = t.session;
          verified = w.verified;
          client_id = transport_id t.peer;
          sent = w.sent;
        }) in
        record { established = refl; cid_active = refl; pinned = λ _. pins.route.committed }

    pub library-phase :
        (cs : List Callback) (t : Thread) (w : Shared) → (library o cs t w).0.phase ≡ t.phase
    unfolding library
    library-phase cs t w = refl

    pub library-maps :
        (cs : List Callback) (t : Thread) (w : Shared) → (library o cs t w).1.maps ≡ w.maps
    unfolding library
    library-maps cs t w = refl

    pub library-device :
        (cs : List Callback) (t : Thread) (w : Shared) → (library o cs t w).0.device ≡ t.device
    unfolding library
    library-device cs t w = refl
