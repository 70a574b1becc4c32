-- ===== src/Loop/Stable/Bodies.antt =====
-- Keeping a body in a file leaves connections and references alone.
use webserer_core.Base.{
  ℕ, ◌≡◌, refl, ap, ◌∙◌, true, false, ◌&&◌, inl, inr, Option, none, some, Bool, ltb, add_size,
  Bool-cases, if◌then◌else◌, arith,
}
use webserer_core.Buffer
use webserer_core.Connection.{Connection}
use webserer_core.Loop.{Loop, System, client_at}
use webserer_core.Loop.Ended.{put_client}
use webserer_core.Loop.Spool.{
  finalize_body_tmp_file, open_tmp_file, spool, flush_request_body_to_tmp_file,
}
use webserer_core.Loop.Stable.{Same}
use webserer_core.Request.{HttpRequest}
use webserer_core.Tables.{lookup}
use webserer_core.Tables.Laws.{lookup-insert}

Same-if :
    {A : Type 0} (s : Loop) (b : Bool) (x y : A × Loop)
    → Same s x.1
    → Same s y.1
    → Same s (if b then x else y).1
Same-if s true x y h k = h
Same-if s false x y h k = k

Same-option :
    {A B : Type 0} (s : Loop) (o : Option B) (x : A × Loop) (f : B → A × Loop)
    → Same s x.1
    → ((b : B) → Same s (f b).1)
    → let r : A × Loop = elim o [ none ↦ x | some b ↦ f b ] in Same s r.1
Same-option s none x f h k = h
Same-option s (some b) x f h k = k b

-- What is done for the body of a request leaves connections and references alone.
module _ (system : System) where
  pub finalize-Same :
      (conn : Connection) (s : Loop) → Same s (finalize_body_tmp_file system conn s).1
  unfolding finalize_body_tmp_file
  finalize-Same conn s =
      let unchanged : Same s s = (refl, refl, refl, refl, refl) in
      Same-if s _ _ _ unchanged (
        Same-option s (conn.request).opened_file _ _ unchanged (λ old.
          Same-option s _ _ _ (refl, refl, refl, refl, refl)
            (λ fd. (refl, refl, refl, refl, refl))))

  open-Same : (req : HttpRequest) (fd : ℕ) (s : Loop) → Same s (open_tmp_file system req fd s).1
  unfolding open_tmp_file
  open-Same req fd s =
      Same-if s req.opened _ _ (refl, refl, refl, refl, refl)
        (Same-option s _ _ _ (refl, refl, refl, refl, refl)
          (λ file. (refl, refl, refl, refl, refl)))

  spool-Same : (req : HttpRequest) (s : Loop) → Same s (spool system req s).1
  unfolding spool
  spool-Same req s =
      Same-option s req.opened_file _ _ (refl, refl, refl, refl, refl)
        (λ file.
          Same-option s _ _ _ (refl, refl, refl, refl, refl)
            (λ offset. (refl, refl, refl, refl, refl)))

  Same-trans : (s t u : Loop) → Same s t → Same t u → Same s u
  Same-trans s t u h k = (k.0 ∙ h.0, k.1 ∙ h.1, k.2 ∙ h.2, k.3 ∙ h.3, k.4 ∙ h.4)

  pub flush-Same :
      (conn : Connection) (s : Loop) → Same s (flush_request_body_to_tmp_file system conn s).1
  unfolding flush_request_body_to_tmp_file
  flush-Same conn s =
      let opened = open_tmp_file system conn.request conn.fd s in
      let req = conn.request in
      let empty = Buffer.is_empty req.body in
      let too_large =
        ltb 0 req.max_body_size
        && ltb req.max_body_size (add_size req.body_file_written (Buffer.size req.body)) in
      elim (Bool-cases empty) [
        | inl e ↦ rw (flush_request_body_to_tmp_file, e) (refl, refl, refl, refl, refl)
        | inr e ↦ elim (Bool-cases too_large) [
          | inl z ↦ rw (flush_request_body_to_tmp_file, e, z) (refl, refl, refl, refl, refl)
          | inr z ↦
              rw (flush_request_body_to_tmp_file, e, z)
                (Same-trans s opened.1 (spool system opened.0 opened.1).1 (open-Same req conn.fd s)
                  (spool-Same opened.0 opened.1))
        ]
      ]

pub client_at-Same : (fd : ℕ) (s t : Loop) → Same s t → client_at fd t ≡ client_at fd s
client_at-Same fd s t h = ap (λ m. lookup fd m.connections) h.0

pub client_at-put :
    (fd : ℕ) (conn : Connection) (s : Loop) → client_at fd (put_client fd conn s) ≡ some conn
client_at-put fd conn s = lookup-insert fd fd conn (s.manager).connections ∙ ground arith
