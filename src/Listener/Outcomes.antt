-- ===== src/Listener/Outcomes.antt =====
-- What the stateless path of loft/src/dtls_mbed.rs may do with a datagram, case by case.
use loft.Prelude.{
  ℕ, ◌+◌, ◌≡◌, ◌⊎◌, inl, inr, refl, sym, ap, ◌∙◌, Bool, true, false, Option, none, some, List, [],
  ◌∷◌, ◌||◌, if_ind, Bool-cases, arith,
}
use loft.Prelude.Eq.{bytes_key}
use loft.Prelude.Assoc.{lookup, contains_key-lookup}
use loft.Quota.Defs.{IpAddr, ConnQuota, is_full, try_acquire, release}
use loft.Quota.Books.{try_acquire-refused}
use loft.Demux.{SocketAddr, Maps, promoted, cleaned}
use loft.Shim.Codes.{ℤ, pos, int_beq}
use loft.Shim.Session.{
  Session, Credentials, new_session, reset, HandshakeStatus, done, want_read, want_write,
  hello_verify_required, failed, handshake_status,
}
use loft.Listener.Transport.{ConnState}
use loft.Listener.Cookie.{transport_id}
use loft.Listener.Library.{Outside, call, Authenticated, Checked}
use loft.Listener.Calls.{AllTo, call-Pinned, call-credentials, call-verified}
use loft.Listener.Pending.{
  Listener, Attempt, Started, Handled, placeholder_io, mint_cid, promote, admit, on_want, on_status,
  cleared, drive, stamped, with_cid, with_reset, with_pending, stateless,
}

-- A valid cookie for the source among what its datagram made the library check, or a check with success
-- in another session's thread while the flag was open.
abbrev pub IsVerified : Outside → Attempt → SocketAddr → Type 0
IsVerified o a source =
    Checked o (transport_id source) a.callbacks ⊎ (a.is_checked_elsewhere ≡ true)

-- What a session has that begins for a source.
pub record IsEarned (o : Outside) (a : Attempt) (source : SocketAddr) (l : Listener) (t : Started)
    : Type 0 where
  pub verified : IsVerified o a source
  pub peer : t.peer ≡ source
  pub pinned : t.session.io.committed_peer ≡ source
  pub fresh_cid : lookup t.cid l.maps.by_cid ≡ none
  pub fresh_id : t.conn_id ≡ l.next_conn_id
  pub charged : (try_acquire l.quota source.0).1 ≡ some t.permit
  pub credentials :
      (who : Credentials) → t.session.credentials ≡ some who → Authenticated o who a.callbacks

pub data Effect (o : Outside) (a : Attempt) (source : SocketAddr) (l : Listener) (h : Handled)
    : Type 0 where
  kept :
      h.started ≡ none
      → h.listener.maps ≡ l.maps
      → h.listener.quota ≡ l.quota
      → h.listener.next_conn_id ≡ l.next_conn_id
      → Effect o a source l h
  unspawned :
      (cid : List ℕ) (permit : IpAddr)
      → h.started ≡ none
      → lookup cid l.maps.by_cid ≡ none
      → (try_acquire l.quota source.0).1 ≡ some permit
      → h.listener.maps
        ≡ cleaned (promoted l.maps source cid l.next_conn_id) source cid l.next_conn_id
      → h.listener.quota ≡ release (try_acquire l.quota source.0).0 permit
      → h.listener.next_conn_id ≡ l.next_conn_id + 1
      → Effect o a source l h
  began :
      (t : Started)
      → h.started ≡ some t
      → IsEarned o a source l t
      → h.listener.maps ≡ promoted l.maps source t.cid t.conn_id
      → h.listener.quota ≡ (try_acquire l.quota source.0).0
      → h.listener.next_conn_id ≡ l.next_conn_id + 1
      → Effect o a source l h

-- An id that is minted is new to the map.
pub mint_cid-fresh :
    (m : Maps) (draws : List (Option (List ℕ))) (cid : List ℕ)
    → mint_cid m draws ≡ some cid
    → lookup cid m.by_cid ≡ none
unfolding mint_cid
mint_cid-fresh m [] cid h = absurd (ground arith)
mint_cid-fresh m (none ∷ draws) cid h = absurd (ground arith)
mint_cid-fresh m (some c ∷ draws) cid h =
    ground (arith, mint_cid-fresh m draws cid, contains_key-lookup c m.by_cid)

readdressed :
    (a b : SocketAddr) (sent : List (SocketAddr × List ℕ)) → a ≡ b → AllTo a sent → AllTo b sent
readdressed a b sent e h = rw e at h

-- The session that the handshake leaves, as far as it matters.
record IsDriven (o : Outside) (a : Attempt) (source : SocketAddr) (s : Session ConnState)
    : Type 0 where
  pinned : s.io.committed_peer ≡ source
  credentials : (who : Credentials) → s.credentials ≡ some who → Authenticated o who a.callbacks

module _ (o : Outside) (deadline : ℕ) (a : Attempt) (source : SocketAddr) (l : Listener) where
  promote-Effect :
      (cid : List ℕ) (permit : IpAddr) (s : Session ConnState) (flag : Bool)
      → lookup cid l.maps.by_cid ≡ none
      → IsVerified o a source
      → IsDriven o a source s
      → (try_acquire l.quota source.0).1 ≡ some permit
      → Effect o a source l (
          promote deadline a source cid permit s (record l {
            pending = none;
            verified = flag;
            quota = (try_acquire l.quota source.0).0;
          }))
  promote-Effect cid permit s flag fresh verified driven got =
      if_ind (Effect o a source l) a.can_spawn
        (λ _.
          Effect.began _ refl
            (record {
              verified = verified;
              peer = refl;
              pinned = driven.pinned;
              fresh_cid = fresh;
              fresh_id = refl;
              charged = got;
              credentials = driven.credentials;
            })
            refl refl refl)
        (λ _. Effect.unspawned cid permit refl fresh got refl refl refl)

  admit-Effect :
      (cid : List ℕ) (s : Session ConnState) (p : Option (Session ConnState)) (flag : Bool)
      (r : ConnQuota × Option IpAddr)
      → lookup cid l.maps.by_cid ≡ none
      → IsVerified o a source
      → IsDriven o a source s
      → try_acquire l.quota source.0 ≡ r
      → Effect o a source l
          (admit deadline a source cid s (record l { pending = p; verified = flag }) r)
  admit-Effect cid s p flag (q, none) fresh verified driven e =
      let same : q ≡ l.quota =
        sym (ap (λ (x : ConnQuota × Option IpAddr). x.0) e)
        ∙ try_acquire-refused l.quota source.0 (ap (λ (x : ConnQuota × Option IpAddr). x.1) e) in
      Effect.kept refl refl same refl
  admit-Effect cid s p flag (q, some permit) fresh verified driven e =
      let quota = ap (λ (x : ConnQuota × Option IpAddr). x.0) e in
      let got = ap (λ (x : ConnQuota × Option IpAddr). x.1) e in
      rw (← quota) (promote-Effect cid permit s flag fresh verified driven got)

  on_want-Effect :
      (cid : List ℕ) (s : Session ConnState) (p : Option (Session ConnState)) (flag : Bool)
      → lookup cid l.maps.by_cid ≡ none
      → (flag ≡ true → IsVerified o a source)
      → IsDriven o a source s
      → Effect o a source l
          (on_want deadline a source cid s (record l { pending = p; verified = flag }))
  on_want-Effect cid s p flag fresh verified driven =
      if_ind (Effect o a source l) flag
        (λ e. admit-Effect cid s p Bool.false _ fresh (verified e) driven refl)
        (λ _. Effect.kept refl refl refl refl)

  on_status-Effect :
      (cid : List ℕ) (s : Session ConnState) (p : Option (Session ConnState)) (flag : Bool)
      (status : HandshakeStatus)
      → lookup cid l.maps.by_cid ≡ none
      → (flag ≡ true → IsVerified o a source)
      → IsDriven o a source s
      → Effect o a source l
          (on_status deadline a source cid s (record l { pending = p; verified = flag }) status)
  on_status-Effect cid s p flag hello_verify_required fresh verified driven =
      Effect.kept refl refl refl refl
  on_status-Effect cid s p flag want_read fresh verified driven =
      on_want-Effect cid s p flag fresh verified driven
  on_status-Effect cid s p flag want_write fresh verified driven =
      on_want-Effect cid s p flag fresh verified driven
  on_status-Effect cid s p flag done fresh verified driven = Effect.kept refl refl refl refl
  on_status-Effect cid s p flag (failed e) fresh verified driven = Effect.kept refl refl refl refl

  -- What is sent has no part in the effect.
  with_sent :
      (h : Handled) (sent : List (SocketAddr × List ℕ))
      → Effect o a source l h
      → Effect o a source l (record h { sent = sent })
  with_sent h sent (Effect.kept s m q n) = Effect.kept s m q n
  with_sent h sent (Effect.unspawned cid permit s f g m q n) =
      Effect.unspawned cid permit s f g m q n
  with_sent h sent (Effect.began t s e m q n) =
      Effect.began t s
        (record {
          verified = e.verified;
          peer = e.peer;
          pinned = e.pinned;
          fresh_cid = e.fresh_cid;
          fresh_id = e.fresh_id;
          charged = e.charged;
          credentials = e.credentials;
        })
        m q n

  raised : (x y : Bool) → (x || y) ≡ true → (x ≡ true) ⊎ (y ≡ true)
  raised true y h = inl refl
  raised false y h = inr h

  only_then :
      (who : Credentials) (s : Session ConnState)
      → s.credentials ≡ none
      → Authenticated o who a.callbacks ⊎ (s.credentials ≡ some who)
      → Authenticated o who a.callbacks
  only_then who s clean (inl now) = now
  only_then who s clean (inr before) = absurd (ground (arith, clean, before))

  drive-Effect :
      (cid : List ℕ) (s : Session ConnState)
      → lookup cid l.maps.by_cid ≡ none
      → s.credentials ≡ none
      → s.io.committed_peer ≡ source
      → Effect o a source l (drive o deadline a source cid s l)
        × AllTo source (drive o deadline a source cid s l).sent
  unfolding drive
  drive-Effect cid s fresh clean stamped_ =
      let x0 = cleared source s in
      let x = call o a.callbacks x0 in
      let flag : (x.verified || a.is_checked_elsewhere) ≡ true → IsVerified o a source = λ up.
        elim (raised x.verified a.is_checked_elsewhere up) [
          | inl own ↦ elim (call-verified o a.callbacks x0 own) [
            | inl checked ↦ inl checked
            | inr before ↦ absurd (ground arith)
          ]
          | inr theirs ↦ inr theirs
        ] in
      let pins = call-Pinned o a.callbacks x0 in
      (
        with_sent _ _ (
            on_status-Effect cid x.session (some x.session) (x.verified || a.is_checked_elsewhere)
              (handshake_status a.code) fresh flag
              (record {
                pinned = pins.route.committed ∙ stamped_;
                credentials =
                    λ who h. only_then who s clean (call-credentials o a.callbacks x0 who h);
              })),
        readdressed s.io.committed_peer source x.sent stamped_ (pins.replies tt),
      )

  -- The effect, and where replies go.
  abbrev IsOutcome : Handled → Type 0
  IsOutcome h = Effect o a source l h × AllTo source h.sent

  with_cid-IsOutcome :
      (s : Session ConnState) (cid : Option (List ℕ))
      → mint_cid l.maps a.draws ≡ cid
      → s.credentials ≡ none
      → s.io.committed_peer ≡ source
      → IsOutcome (with_cid o deadline a source s l cid)
  with_cid-IsOutcome s none minted clean stamped_ = (Effect.kept refl refl refl refl, tt)
  with_cid-IsOutcome s (some cid) minted clean stamped_ =
      if_ind IsOutcome _ (λ _. (Effect.kept refl refl refl refl, tt))
        (λ _. drive-Effect cid s (mint_cid-fresh l.maps a.draws cid minted) clean stamped_)

  with_reset-IsOutcome :
      (dgram : List ℕ) (ok : Bool) (s : Session ConnState)
      → (ok ≡ true → s.credentials ≡ none)
      → IsOutcome (with_reset o deadline a source dgram l (ok, s))
  with_reset-IsOutcome dgram false s clean = (Effect.kept refl refl refl refl, tt)
  with_reset-IsOutcome dgram true s clean =
      with_cid-IsOutcome (stamped source dgram s) (mint_cid l.maps a.draws) refl (clean refl) refl

  reset-clean :
      (rc : ℤ) (s : Session ConnState) → (reset rc s).0 ≡ true → (reset rc s).1.credentials ≡ none
  reset-clean rc s h = elim (Bool-cases (int_beq rc (pos 0))) [
    | inl ok ↦ rw ok refl
    | inr bad ↦ absurd (ground arith)
  ]

  with_pending-IsOutcome :
      (dgram : List ℕ) (p : Option (Session ConnState))
      → IsOutcome (with_pending o deadline a source dgram l p)
  with_pending-IsOutcome dgram none =
      if_ind IsOutcome a.can_set_up
        (λ _.
          with_reset-IsOutcome dgram (reset a.reset_code (new_session placeholder_io)).0
            (reset a.reset_code (new_session placeholder_io)).1
            (reset-clean a.reset_code (new_session placeholder_io)))
        (λ _. (Effect.kept refl refl refl refl, tt))
  with_pending-IsOutcome dgram (some s) =
      with_reset-IsOutcome dgram (reset a.reset_code s).0 (reset a.reset_code s).1
        (reset-clean a.reset_code s)

  -- A datagram of a source without a session leaves the maps, the quota and the counter as they were, or
  -- it earns the source a session: only if it made the library check with success a cookie for that
  -- source's address, or if another thread's check of any cookie had success while the flag was open, only with a permit of its own,
  -- a fresh connection id, replies pinned to the source and no credentials but those of that handshake;
  -- or the spawn of the thread fails, and the entries and the permit are given back. What is sent goes
  -- to the source.
  pub stateless-Effect :
      (dgram : List ℕ)
      → Effect o a source l (stateless o deadline a source dgram l)
        × AllTo source (stateless o deadline a source dgram l).sent
  unfolding stateless
  stateless-Effect dgram =
      if_ind IsOutcome (is_full l.quota) (λ _. (Effect.kept refl refl refl refl, tt))
        (λ _. with_pending-IsOutcome dgram l.pending)
