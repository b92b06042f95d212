-- ===== src/Kcp/Valid.antt =====
-- The invariant of a server's sessions: the map, the memory and ikcp agree.
use lua_server.Common.{
  ℕ, suc, ◌≤◌, ◌<◌, ◌≡◌, ◌≢◌, refl, ap, sym, ◌∙◌, true, false, Option, none, some, List, ◌==◌,
  ==_iff, arith, ℕ_discrete,
}
use lua_server.Common.Bytes.{Bytes}
use lua_server.Kcp.{KcpLib, KcpSession, KcpServer, Call, set_at}

pub set_at_same {ℓ} : {A : Type ℓ} (f : ℕ → A) (a : ℕ) (v : A) → set_at f a v a ≡ v
unfolding set_at
set_at_same f a v = let e : (a == a) ≡ true = (==_iff a a).1 refl in rw e refl

set_at_other {ℓ} : {A : Type ℓ} (f : ℕ → A) (a : ℕ) (v : A) (x : ℕ) → x ≢ a → set_at f a v x ≡ f x
unfolding set_at
set_at_other f a v x d = let e : (x == a) ≡ false = ground (arith, d) in rw e refl

pub some_eq {ℓ} : {A : Type ℓ} {x y : A} → some x ≡ some y → x ≡ y
some_eq {x = x} h = ap (λ o. elim o [ none ↦ x | some z ↦ z ]) h

module _ (lib : KcpLib) where
  -- The session at this address has this id, by its ikcp, and its timer runs.
  pub record IsLive (heap : ℕ → Option (KcpSession lib)) (id r : ℕ) : Type 0 where
    pub session : KcpSession lib
    pub kcp : lib.Kcp
    pub at : heap r ≡ some session
    pub has_kcp : session.kcp ≡ some kcp
    pub has_id : lib.conv kcp ≡ id
    pub timer : session.timer_on ≡ true

  -- Every session that the map knows lives and has the id it is known by; every session in memory
  -- is known; ids have been given out; and addresses to come are free.
  pub record IsValid (v : KcpServer lib) : Type 0 where
    pub known : (id r : ℕ) → v.sessions id ≡ some r → IsLive v.heap id r
    pub kept :
        (r : ℕ) (s : KcpSession lib) → v.heap r ≡ some s → (id : ℕ) × (v.sessions id ≡ some r)
    pub given_out : (id r : ℕ) → v.sessions id ≡ some r → (0 < id) × (id ≤ v.session_id)
    pub unused : (r : ℕ) → v.next_ref ≤ r → v.heap r ≡ none

  -- A session has one id,
  pub one_id :
      (heap : ℕ → Option (KcpSession lib)) (i j r : ℕ) → IsLive heap i r → IsLive heap j r → i ≡ j
  one_id heap i j r g h =
      let e : g.session ≡ h.session = some_eq (sym g.at ∙ h.at) in
      let k : g.kcp ≡ h.kcp =
        some_eq (sym g.has_kcp ∙ ap (λ (s : KcpSession lib). s.kcp) e ∙ h.has_kcp) in
      sym g.has_id ∙ ap lib.conv k ∙ h.has_id

  -- and stands at another address than one that is free.
  not_free :
      (heap : ℕ → Option (KcpSession lib)) (i q r : ℕ) → IsLive heap i q → heap r ≡ none → q ≢ r
  not_free heap i q r g e f = let c : some g.session ≡ none = sym g.at ∙ ap heap f ∙ e in cc c

  elsewhere :
      (heap : ℕ → Option (KcpSession lib)) (o : Option (KcpSession lib)) (i q r : ℕ)
      → IsLive heap i q
      → q ≢ r
      → IsLive (set_at heap r o) i q
  elsewhere heap o i q r g d = record {
    session = g.session;
    kcp = g.kcp;
    at = set_at_other heap r o q d ∙ g.at;
    has_kcp = g.has_kcp;
    has_id = g.has_id;
    timer = g.timer;
  }

  put_here :
      (heap : ℕ → Option (KcpSession lib)) (s : KcpSession lib) (k : lib.Kcp) (i q r : ℕ)
      → s.kcp ≡ some k
      → lib.conv k ≡ i
      → s.timer_on ≡ true
      → q ≡ r
      → IsLive (set_at heap r (some s)) i q
  put_here heap s k i q r ek ec et e = record {
    session = s;
    kcp = k;
    at = ap (set_at heap r (some s)) e ∙ set_at_same heap r (some s);
    has_kcp = ek;
    has_id = ec;
    timer = et;
  }

  -- Calls and the receive buffer do not matter.
  pub quiet :
      (v : KcpServer lib) (buffer : Bytes) (calls : List Call)
      → IsValid v
      → IsValid (record v { buffer = buffer; calls = calls })
  quiet v buffer calls h = record {
    known = h.known;
    kept = h.kept;
    given_out = h.given_out;
    unused = h.unused;
  }

  -- A session in memory may change, but for its id;
  pub replace :
      (v : KcpServer lib) (i r : ℕ) (s : KcpSession lib) (k : lib.Kcp)
      → IsValid v
      → v.sessions i ≡ some r
      → s.kcp ≡ some k
      → lib.conv k ≡ i
      → s.timer_on ≡ true
      → IsValid (record v { heap = set_at v.heap r (some s) })
  replace v i r s k h e ek ec et = record {
    known = λ j q f. elim (ℕ_discrete q r) [
      | yes same ↦
          let same_id : i ≡ j =
            one_id v.heap i j r (h.known i r e) (h.known j r (f ∙ ap some same)) in
          put_here v.heap s k j q r ek (ec ∙ same_id) et same
      | no other ↦ elsewhere v.heap (some s) j q r (h.known j q f) other
    ];
    kept = λ q t f. elim (ℕ_discrete q r) [
      | yes same ↦ (i, e ∙ ap some (sym same))
      | no other ↦ h.kept q t (sym (set_at_other v.heap r (some s) q other) ∙ f)
    ];
    given_out = h.given_out;
    unused = λ q l.
        (let d : q ≢ r = λ f. not_free v.heap i r q (h.known i r e) (h.unused q l) (sym f) in
          set_at_other v.heap r (some s) q d ∙ h.unused q l);
  }

  -- it may go, from memory and map at once;
  pub remove :
      (v : KcpServer lib) (i r : ℕ)
      → IsValid v
      → v.sessions i ≡ some r
      → IsValid (record v { heap = set_at v.heap r none; sessions = set_at v.sessions i none })
  remove v i r h e = record {
    known = λ j q f. elim (ℕ_discrete j i) [
      | yes same ↦
          let c : none ≡ some q =
            sym (ap (set_at v.sessions i none) same ∙ set_at_same v.sessions i none) ∙ f in
          cc c
      | no other ↦
          let g = sym (set_at_other v.sessions i none j other) ∙ f in
          let d : q ≢ r =
            λ same. other (one_id v.heap j i r (h.known j r (g ∙ ap some same)) (h.known i r e)) in
          elsewhere v.heap none j q r (h.known j q g) d
    ];
    kept = λ q t f. elim (ℕ_discrete q r) [
      | yes same ↦
          let c : none ≡ some t =
            sym (ap (set_at v.heap r none) same ∙ set_at_same v.heap r none) ∙ f in
          cc c
      | no other ↦
          let (j, g) = h.kept q t (sym (set_at_other v.heap r none q other) ∙ f) in
          let d : j ≢ i = λ same. other (some_eq (sym g ∙ ap v.sessions same ∙ e)) in
          (j, set_at_other v.sessions i none j d ∙ g)
    ];
    given_out = λ j q f. elim (ℕ_discrete j i) [
      | yes same ↦
          let c : none ≡ some q =
            sym (ap (set_at v.sessions i none) same ∙ set_at_same v.sessions i none) ∙ f in
          cc c
      | no other ↦ h.given_out j q (sym (set_at_other v.sessions i none j other) ∙ f)
    ];
    unused = λ q l. elim (ℕ_discrete q r) [
      | yes same ↦ ap (set_at v.heap r none) same ∙ set_at_same v.heap r none
      | no other ↦ set_at_other v.heap r none q other ∙ h.unused q l
    ];
  }

  -- and a new one may come, under the next id.
  pub add :
      (v : KcpServer lib) (s : KcpSession lib) (k : lib.Kcp)
      → IsValid v
      → s.kcp ≡ some k
      → lib.conv k ≡ suc v.session_id
      → s.timer_on ≡ true
      → IsValid (record v {
        session_id = suc v.session_id;
        sessions = set_at v.sessions (suc v.session_id) (some v.next_ref);
        heap = set_at v.heap v.next_ref (some s);
        next_ref = suc v.next_ref;
      })
  add v s k h ek ec et = record {
    known = λ j q f. elim (ℕ_discrete j (suc v.session_id)) [
      | yes same ↦
          let e : v.next_ref ≡ q = some_eq (
            sym (
              ap (set_at v.sessions (suc v.session_id) (some v.next_ref)) same
              ∙ set_at_same v.sessions (suc v.session_id) (some v.next_ref))
            ∙ f) in
          put_here v.heap s k j q v.next_ref ek (ec ∙ sym same) et (sym e)
      | no other ↦
          let g = sym (set_at_other v.sessions (suc v.session_id) (some v.next_ref) j other) ∙ f in
          let d : q ≢ v.next_ref =
            not_free v.heap j q v.next_ref (h.known j q g) (h.unused v.next_ref (omega arith)) in
          elsewhere v.heap (some s) j q v.next_ref (h.known j q g) d
    ];
    kept = λ q t f. elim (ℕ_discrete q v.next_ref) [
      | yes same ↦ (
        suc v.session_id,
        set_at_same v.sessions (suc v.session_id) (some v.next_ref) ∙ ap some (sym same),
      )
      | no other ↦
          let (j, g) = h.kept q t (sym (set_at_other v.heap v.next_ref (some s) q other) ∙ f) in
          let d : j ≢ suc v.session_id = λ same. omega (arith, same, h.given_out j q g) in
          (j, set_at_other v.sessions (suc v.session_id) (some v.next_ref) j d ∙ g)
    ];
    given_out = λ j q f. elim (ℕ_discrete j (suc v.session_id)) [
      | yes same ↦ (omega (arith, same), omega (arith, same))
      | no other ↦
          let (lo, hi) =
            h.given_out j q
              (sym (set_at_other v.sessions (suc v.session_id) (some v.next_ref) j other) ∙ f) in
          (lo, omega (arith, hi))
    ];
    unused = λ q l.
        (let d : q ≢ v.next_ref = λ same. omega (arith, same, l) in
          set_at_other v.heap v.next_ref (some s) q d ∙ h.unused q (omega (arith, l)));
  }
