-- ===== src/Server/Service/Guarded.antt =====
-- Who can change the nodes through server/service.go.
use mesh_alot.Prelude.{◌⊎◌, ◌≡◌, ◌≢◌, false, some, ◌++◌, arith, is_empty, Bool-cases, inl, inr}
use mesh_alot.Prelude.Text.{Text, codes, text_eq, text_eq_iff, trim_space}
use mesh_alot.Protocol.{EnrollRequest}
use mesh_alot.Server.Submission.{unauthorized}
use mesh_alot.Server.Database.{Database}
use mesh_alot.Server.Service.{
  Service, Context, Reply, refused, created, authenticated, enroll_handler, postgres,
}

-- If a handler behind `authenticated` does anything but answer 401 on a service with a
-- store, whatever the handler is, then the service has a token and the request's header is `Bearer `
-- with that token.
pub authenticated-token :
    (header : Text) (next : Service → Reply × Service) (s : Service) (db : Database)
    → s.backend ≡ postgres db
    → authenticated header next s ≢ (refused unauthorized, s)
    → (is_empty s.dev_token ≡ false) × (header ≡ codes "Bearer " ++ s.dev_token)
unfolding authenticated
authenticated-token header next s db stored h = elim (Bool-cases (is_empty s.dev_token)) [
  | inl empty ↦ absurd (h (ground (arith, stored, empty)))
  | inr set ↦ elim (Bool-cases (text_eq header (codes "Bearer " ++ s.dev_token))) [
    | inl same ↦ (set, (text_eq_iff header (codes "Bearer " ++ s.dev_token)).0 same)
    | inr other ↦ absurd (h (ground (arith, stored, set, other)))
  ]
]

-- An enrollment that changes the service, or is answered by 201, carries the service's token, which
-- is not empty, and a node id that is not blank.
pub enrolled-token :
    (c : Context) (req : EnrollRequest) (s : Service)
    → ((enroll_handler c (some req) s).0 ≡ created) ⊎ ((enroll_handler c (some req) s).1 ≢ s)
    → (is_empty s.dev_token ≡ false)
      × (req.enrollment_token ≡ s.dev_token)
      × (is_empty (trim_space req.node_id) ≡ false)
unfolding enroll_handler
enrolled-token c req s h = elim (Bool-cases (is_empty (trim_space req.node_id))) [
  | inl blank ↦
      absurd (elim h [ inl e ↦ ground (arith, e, blank) | inr n ↦ n (ground (arith, blank)) ])
  | inr named ↦ elim (Bool-cases (is_empty s.dev_token)) [
    | inl empty ↦ absurd (elim h [
      | inl e ↦ ground (arith, e, named, empty)
      | inr n ↦ n (ground (arith, named, empty))
    ])
    | inr set ↦ elim (Bool-cases (text_eq req.enrollment_token s.dev_token)) [
      | inl same ↦ (set, (text_eq_iff req.enrollment_token s.dev_token).0 same, named)
      | inr other ↦ absurd (elim h [
        | inl e ↦ ground (arith, e, named, set, other)
        | inr n ↦ n (ground (arith, named, set, other))
      ])
    ]
  ]
]
