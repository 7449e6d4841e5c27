-- ===== src/Server/Serve/Ends.antt =====
-- The loop over the requests of a session comes to an end.
use go_ls_remote.Base.{
  ℕ, zero, suc, ◌+◌, ◌≤◌, ◌<◌, ◌≡◌, ◌≢◌, inl, inr, arith, Bool, false, [], equal, Bytes, Bool-cases,
}
use go_ls_remote.Base.Text.{bytes}
use go_ls_remote.Objfmt.Hash.{Algo}
use go_ls_remote.Pktline.{Kind}
use go_ls_remote.Pktline.Incoming.{Incoming}
use go_ls_remote.Pktline.Writer.{Writer}
use go_ls_remote.Server.Store.{Store}
use go_ls_remote.Server.LsRefs.Respond.{respond_ls_refs}
use go_ls_remote.Server.{Served, served, fault, write_err_packet}
use go_ls_remote.Server.CommandLoop.{Routed, finished, command, broken, process_v2_request}
use go_ls_remote.Server.LsRefs.{ls_refs_args_loop, parse_ls_refs_args, no_args}
use go_ls_remote.Server.ObjectInfo.{
  respond_object_info, ObjectAnswer, object_info_args_loop, parse_object_info_args,
}
use go_ls_remote.Server.Serve.{
  Session, starved, cancelled, dispatch_v2, next_round, routed_to, run_v2_command_loop, packets,
}
use go_ls_remote.Server.Serve.Takes.{
  Leaves, process_v2_request-Leaves, Shrinks, refuse_after-Shrinks, then_respond-Shrinks,
  ls_refs_args_loop-Shrinks, object_info_args_loop-Shrinks,
}

module _ (quote : Bytes → Bytes) (kind_mark : Kind → Bytes) where
  module _ (algo : Algo) (store : Store) (object_info : Bytes → ObjectAnswer) where
    dispatch_v2-Shrinks :
        (name : Bytes) (q : Incoming) (w : Writer)
        → Shrinks (packets q) (dispatch_v2 quote kind_mark algo store object_info name q w)
    unfolding dispatch_v2 parse_ls_refs_args parse_object_info_args
    dispatch_v2-Shrinks name q w = elim (Bool-cases (equal name (bytes "ls-refs"))) [
      | inl y ↦ rw y (
          then_respond-Shrinks (packets q) (ls_refs_args_loop quote kind_mark q no_args w)
            (respond_ls_refs store) (ls_refs_args_loop-Shrinks quote kind_mark q no_args w))
      | inr n ↦ elim (Bool-cases (equal name (bytes "object-info"))) [
        | inl y ↦
            rw (n, y)
              (then_respond-Shrinks (packets q)
                (object_info_args_loop kind_mark q (record { size = false }) [] w)
                (respond_object_info algo object_info)
                (object_info_args_loop-Shrinks quote kind_mark q (record { size = false }) [] w))
        | inr m ↦
            rw (n, m)
              (refuse_after-Shrinks (Unit {0}) (packets q)
                (write_err_packet (bytes "command not supported") w)
                (bytes "command not supported"))
      ]
    ]

    -- The loop over the requests of a session comes to an end on every stream of packets: it closes, or ends with
    -- an error or the context's, within as many rounds as there are packets and one more. Each request
    -- takes a packet at least.
    pub run_v2_command_loop-ends :
        (ctx_done : ℕ → Bool) (fuel round : ℕ) (q : Incoming) (w : Writer)
        → packets q < fuel
        → run_v2_command_loop quote kind_mark algo store object_info ctx_done fuel round q w
          ≢ starved
    unfolding run_v2_command_loop
    run_v2_command_loop-ends ctx_done zero round q w l e = absurd (omega (arith, l))
    run_v2_command_loop-ends ctx_done (suc fuel) round q w l e =
        elim (Bool-cases (ctx_done round)) [
          | inl y ↦ no_end (rw y at e)
          | inr n ↦
              routed (process_v2_request q) (process_v2_request-Leaves q)
                (λ rest v h.
                  run_v2_command_loop-ends ctx_done fuel (round + 1) rest v (omega (arith, h, l)))
                (rw n at e)
        ]
      where
        no_end : cancelled w ≡ starved → ⊥
        no_end x = absurd (cc)

        next : Incoming → Writer → Session
        next = run_v2_command_loop quote kind_mark algo store object_info ctx_done fuel (round + 1)

        served_on :
            (n : ℕ) (s : Served (Unit {0}))
            → Shrinks n s
            → n ≤ packets q
            → ((rest : Incoming) (v : Writer) → packets rest < packets q → next rest v ≢ starved)
            → next_round quote kind_mark algo store object_info s next ≢ starved
        served_on n (served a rest v) d m h x = h rest v (omega (arith, d, m)) x
        served_on n (fault f v) d m h x = absurd (cc)

        routed :
            (r : Routed)
            → Leaves (packets q) r
            → ((rest : Incoming) (v : Writer) → packets rest < packets q → next rest v ≢ starved)
            → routed_to quote kind_mark algo store object_info r w next ≢ starved
        routed finished d h x = absurd (cc)
        routed (broken f) d h x = absurd (cc)
        routed (command name args) d h x =
            served_on (packets args)
              (dispatch_v2 quote kind_mark algo store object_info name args w)
              (dispatch_v2-Shrinks name args w) d h x
