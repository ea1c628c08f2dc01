-- ===== src/Gateway/Invariant/Closed.antt =====
-- internal/gateway/server.go, session.go: which sessions are closed.
use lurkspire.Prelude.{
  ℕ, ◌+◌, ◌≡◌, refl, sym, subst, ap, ◌∙◌, inl, inr, List, [], ◌∷◌, none, some, Bool, true, false,
  ◌||◌, ◌&&◌, arith, Option-cases, Bool-cases, ◌==◌, ltb, lookup, erase, nat_key, lookup-modify,
  lookup-erase, ==_iff,
}
use mathlib.Core.Option
use lurkspire.Gateway.State.{Env, Session, World}
use lurkspire.Gateway.Send.{session_of, session_or}
use lurkspire.Gateway.Friends.{contains_id}
use lurkspire.Gateway.Server.{close, close_all, served_uids, stale, watch}
use lurkspire.Gateway.Steady.{tag, tags}
use lurkspire.Gateway.Invariant.{IsWorld, lookup-tags}
use lurkspire.Gateway.Invariant.Close.{
  shut, shut_world, tags-on_disconnect, online-on_disconnect, close-IsWorld,
}

-- A session's tag when it is closed, or is not.
abbrev pub shut_if : Bool → ℕ × (Bool × Bool) → ℕ × (Bool × Bool)
shut_if b t = (t.0, (t.1.0, t.1.1 || b))

shut_if-closed : (b : Bool) (t : ℕ × (Bool × Bool)) → t.1.1 ≡ true → shut_if b t ≡ t
shut_if-closed b t e = rw e refl

shut_if-false : (t : ℕ × (Bool × Bool)) → shut_if false t ≡ t
shut_if-false (i, (l, true)) = refl
shut_if-false (i, (l, false)) = refl

shut_if-true : (t : ℕ × (Bool × Bool)) → shut_if true t ≡ shut t
shut_if-true (i, (l, true)) = refl
shut_if-true (i, (l, false)) = refl

shut_if-or : (a b : Bool) (t : ℕ × (Bool × Bool)) → shut_if b (shut_if a t) ≡ shut_if (a || b) t
shut_if-or true b (i, (l, true)) = refl
shut_if-or true b (i, (l, false)) = refl
shut_if-or false b (i, (l, true)) = refl
shut_if-or false b (i, (l, false)) = refl

module _ {S : Type 0} (n : ℕ) (env : Env S) where
  -- Closing a session closes this one, and no other.
  close-lookup :
      (uid u : ℕ) (w : World S)
      → IsWorld n w
      → lookup u (tags (close env uid w).sessions)
        ≡ Option.map (shut_if (uid == u)) (lookup u (tags w.sessions))
  unfolding close
  close-lookup uid u w h = elim (Option-cases (lookup u w.sessions)) [
    | inl q ↦
        let t : lookup u (tags w.sessions) ≡ none =
          lookup-tags u w.sessions ∙ ap (Option.map tag) q in
        elim (Bool-cases (session_of uid w).closed) [
          | inl e ↦ rw (e, close) (rw t refl)
          | inr e ↦
              rw (e, close)
                (rw (tags-on_disconnect n env uid w h)
                  (ground (arith, lookup-modify uid u shut (tags w.sessions), t)))
        ]
    | inr (s, q) ↦
        let t : lookup u (tags w.sessions) ≡ some (tag s) =
          lookup-tags u w.sessions ∙ ap (Option.map tag) q in
        elim (Bool-cases (session_of uid w).closed) [
          | inl e ↦
              rw (e, close)
                (rw t (
                  ap some (
                    sym (elim (Bool-cases (uid == u)) [
                      | inl b ↦
                          let found : lookup uid w.sessions ≡ some s =
                            subst (λ (x : ℕ). lookup x w.sessions ≡ some s)
                              (sym ((==_iff uid u).0 b)) q in
                          shut_if-closed (uid == u) (tag s)
                            (sym (ap (λ x. (session_or x).closed) found) ∙ e)
                      | inr b ↦ rw b (shut_if-false (tag s))
                    ]))))
          | inr e ↦
              rw (e, close)
                (rw (tags-on_disconnect n env uid w h) (
                  ground (
                    arith,
                    lookup-modify uid u shut (tags w.sessions),
                    t,
                    shut_if-true (tag s),
                    shut_if-false (tag s),
                  )))
        ]
  ]

  close_all-lookup :
      (uids : List ℕ) (u : ℕ) (w : World S)
      → IsWorld n w
      → lookup u (tags (close_all env uids w).sessions)
        ≡ Option.map (shut_if (contains_id u uids)) (lookup u (tags w.sessions))
  unfolding close_all
  close_all-lookup [] u w h = elim (Option-cases (lookup u (tags w.sessions))) [
    | inl q ↦ rw q refl
    | inr (t, q) ↦ rw q (ap some (sym (shut_if-false t)))
  ]
  close_all-lookup (uid ∷ uids) u w h =
      let one = close-lookup uid u w h in
      let rest = close_all-lookup uids u (close env uid w) (close-IsWorld n env uid w h) in
      rest ∙ elim (Option-cases (lookup u (tags w.sessions))) [
        | inl q ↦ rw one (rw q refl)
        | inr (t, q) ↦ rw one (rw q (ap some (shut_if-or (uid == u) (contains_id u uids) t)))
      ]

  -- The idle sessions among those that are served.
  contains_id-stale :
      (u limit now : ℕ) (served : List (ℕ × ℕ)) (w : World S)
      → contains_id u (stale limit now served w)
        ≡ (contains_id u (served_uids served) && ltb ((session_of u w).last_active + limit) now)
  unfolding stale
  contains_id-stale u limit now [] w = refl
  contains_id-stale u limit now (e ∷ served) w =
      let rest = contains_id-stale u limit now served w in
      elim (Bool-cases (e.1 == u)) [
        | inl b ↦
            let same : session_of e.1 w ≡ session_of u w =
              ap (λ x. session_of x w) ((==_iff e.1 u).0 b) in
            ground (arith, rest, b, same)
        | inr b ↦ ground (arith, rest, b)
      ]

  -- A round of the watchdog closes every session that is served and has been silent for longer than
  -- the limit, and no other session; it changes nobody's login.
  pub watch_closes :
      (limit now u : ℕ) (w : World S) (s : Session)
      → IsWorld n w
      → lookup u w.sessions ≡ some s
      → Option.map tag (lookup u (watch env limit now w).sessions)
        ≡ some (
          s.login_uid,
          (
            s.logged_in,
            s.closed || (contains_id u (served_uids w.served) && ltb (s.last_active + limit) now),
          ),
        )
  unfolding watch
  watch_closes limit now u w s h e =
      let idle = stale limit now w.served w in
      let here : session_of u w ≡ s = ap session_or e in
      let t : lookup u (tags w.sessions) ≡ some (tag s) =
        lookup-tags u w.sessions ∙ ap (Option.map tag) e in
      let c : contains_id u idle
          ≡ (contains_id u (served_uids w.served) && ltb (s.last_active + limit) now) =
        contains_id-stale u limit now w.served w
        ∙ ap
            (λ (x : Session).
              contains_id u (served_uids w.served) && ltb (x.last_active + limit) now)
            here in
      sym (lookup-tags u (close_all env idle w).sessions)
      ∙ (close_all-lookup idle u w h ∙ rw t (rw c refl))

  -- When a connection ends, its user is taken offline, also when the online entry leads to a newer
  -- session of the same user.
  pub close_offline :
      (uid : ℕ) (w : World S) (s : Session)
      → IsWorld n w
      → lookup uid w.sessions ≡ some s
      → s.closed ≡ false
      → s.logged_in ≡ true
      → lookup s.login_uid (close env uid w).online ≡ none
  unfolding close
  close_offline uid w s h e opened user =
      let found : session_of uid (shut_world n env uid w h) ≡ record s { closed = true } =
        let shown : lookup uid (shut_world n env uid w h).sessions
            ≡ some (record s { closed = true }) =
          ground (
            arith,
            lookup-modify uid uid (λ (s : Session). record s { closed = true }) w.sessions,
            ==_iff uid uid,
          ) in
        ap session_or shown in
      let here : (session_of uid w).closed ≡ false = ap (λ x. (session_or x).closed) e ∙ opened in
      rw (here, close)
        (ap (lookup s.login_uid) (
            online-on_disconnect n env uid w h (ap (λ (x : Session). x.logged_in) found ∙ user)
            ∙ ap (λ (x : Session). erase x.login_uid w.online) found)
          ∙ (lookup-erase s.login_uid s.login_uid w.online h.distinct
              ∙ ground (arith, ==_iff s.login_uid s.login_uid)))

  -- Closing a session again changes nothing.
  pub close_twice :
      (uid : ℕ) (w : World S) (s : Session)
      → IsWorld n w
      → lookup uid w.sessions ≡ some s
      → close env uid (close env uid w) ≡ close env uid w
  close_twice uid w s h e =
      let v : World S = close env uid w in
      let t : lookup uid (tags w.sessions) ≡ some (tag s) =
        lookup-tags uid w.sessions ∙ ap (Option.map tag) e in
      let after : Option.map tag (lookup uid v.sessions) ≡ some (shut_if (uid == uid) (tag s)) =
        sym (lookup-tags uid v.sessions)
        ∙ (close-lookup uid uid w h ∙ ap (Option.map (shut_if (uid == uid))) t) in
      let closed : (session_of uid v).closed ≡ true = elim (Option-cases (lookup uid v.sessions)) [
        | inl q ↦ absurd (ground (arith, after, q))
        | inr (x, q) ↦
            let b : x.closed ≡ (s.closed || (uid == uid)) = ground (arith, after, q) in
            ap (λ x. (session_or x).closed) q ∙ (b ∙ ground (arith, ==_iff uid uid))
      ] in
      unfold close in rw (closed, close) refl
