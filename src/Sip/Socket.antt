-- ===== src/Sip/Socket.antt =====
-- LinuxCodeBak/Code/19/sip_socket.c and sip_sock.c: the table of sockets, with sip_socket and
-- sip_close. Every struct sock is at an address that malloc gave; `none` at an address means
-- that nothing is allocated there, and `none` as a result is an access of freed or null memory. The
-- semaphore and the received data of a struct sock are not part of the model.
pub mod Descriptors
use linux_program_practice.Base.{
  ℕ, suc, Bool, not, ◌||◌, Option, none, some, List, [], ◌∷◌, leb, ◌==◌, if◌then◌else◌, ◌>>=◌,
  get_elem?, set, map,
}
use mathlib.Core.Option
use linux_program_practice.Base.Int.{ℤ, pos, negsuc, eqb_ℤ}

-- struct sock: `pcb` is the address of the control block.
pub record Sock : Type 0 where
  pub kind : ℕ
  pub pcb : Option ℕ
  pub err : ℤ
  pub socket : ℤ

-- struct sip_socket
pub record SipSocket : Type 0 where
  pub sock : Option ℕ
  pub lastdata : Option ℕ
  pub lastoffset : ℕ
  pub err : ℤ

abbrev pub num_sockets : ℕ
num_sockets = 4

pub record Stack : Type 0 where
  pub sockets : List SipSocket
  pub socks : ℕ → Option Sock

abbrev pub put_sock : ℕ → Option Sock → (ℕ → Option Sock) → ℕ → Option Sock
put_sock a v m b = if b == a then v else m b

-- The address of the struct sock in an element, if its number is the descriptor.
abbrev pub owner : ℤ → (ℕ → Option Sock) → SipSocket → Option (Option ℕ)
owner s socks e = elim e.sock [
  | none ↦ some none
  | some a ↦ elim (socks a) [
    | none ↦ none
    | some k ↦ if eqb_ℤ k.socket s then some (some a) else some none
  ]
]

-- get_socket, as the index and the address of the struct sock; null is `some none`.
unfoldable pub get_socket : ℤ → Stack → Option (Option (ℕ × ℕ))
get_socket (negsuc n) st = some none
get_socket (pos i) st =
    let found = get_elem? st.sockets i >>= owner (pos i) st.socks in
    if leb num_sockets i then some none else Option.map (Option.map (λ a. (i, a))) found

-- The loop of alloc_socket, from index `i` on.
pub alloc_from : ℕ → ℕ → List SipSocket → Option (ℕ × List SipSocket)
alloc_from newsock i [] = none
alloc_from newsock i (e ∷ es) =
    let rest = alloc_from newsock (suc i) es in
    elim e.sock [
      | none ↦
          some
            (i, record { sock = some newsock; lastdata = none; lastoffset = 0; err = pos 0 } ∷ es)
      | some a ↦ Option.map (λ r. (r.0, e ∷ r.1)) rest
    ]

-- The result of alloc_socket: -1 where no element is free.
abbrev pub alloc_result : Stack → Option (ℕ × List SipSocket) → ℤ × Stack
alloc_result st none = (negsuc 0, st)
alloc_result st (some r) = (pos r.0, record st { sockets = r.1 })

-- alloc_socket
unfoldable pub alloc_socket : ℕ → Stack → ℤ × Stack
unfolding alloc_from
alloc_socket newsock st = alloc_result st (alloc_from newsock 0 st.sockets)

abbrev pub sock_dgram : ℕ
sock_dgram = 2

abbrev pub sock_stream : ℕ
sock_stream = 1

abbrev pub af_inet : ℕ
af_inet = 2

-- SIP_SockNew: `malloc` is the address that it gets, `sem_ok` whether sem_init succeeds.
abbrev pub sock_new : Option ℕ → Bool → ℕ → Stack → Option ℕ × Stack
sock_new none sem_ok t st = (none, st)
sock_new (some a) sem_ok t st =
    if sem_ok
    then (
      some a,
      record st {
        socks =
            put_sock a (some (record { kind = t; pcb = none; err = pos 0; socket = negsuc 0 }))
              st.socks;
      },
    )
    else (none, st)

-- SIP_SockDelete
abbrev pub sock_delete : ℕ → Stack → Stack
sock_delete a st = record st { socks = put_sock a none st.socks }

-- sock->socket = i
abbrev pub set_number : ℕ → ℤ → Stack → Stack
set_number a i st = record st {
  socks = put_sock a (Option.map (λ (k : Sock). record k { socket = i }) (st.socks a)) st.socks;
}

-- The end of sip_socket, after alloc_socket.
abbrev pub install : ℕ → ℤ × Stack → ℤ × Stack
install a (i, t) = if eqb_ℤ i (negsuc 0) then (negsuc 0, sock_delete a t) else (i, set_number a i t)

-- sip_socket. For SOCK_STREAM the pointer `sock` is read without ever being set.
unfoldable pub sip_socket : (domain t protocol : ℕ) → Option ℕ → Bool → Stack → Option (ℤ × Stack)
unfolding alloc_socket
sip_socket domain t protocol malloc sem_ok st =
    let (made, u) = sock_new malloc sem_ok sock_dgram st in
    if not (domain == af_inet) || not (protocol == 0)
    then some (negsuc 0, st)
    else if t == sock_dgram
    then some (elim made [ none ↦ (negsuc 0, u) | some a ↦ install a (alloc_socket a u) ])
    else if t == sock_stream
    then none
    else some (negsuc 0, st)

abbrev pub closed : SipSocket → SipSocket
closed e = record e { lastdata = none; sock = none }

-- The end of sip_close, on the element of the descriptor.
abbrev pub close_at : ℕ → ℕ → Stack → Option SipSocket → Option (ℤ × Stack)
close_at i a st none = none
close_at i a st (some e) =
    some (pos 0, sock_delete a (record st { sockets = set st.sockets i (closed e) }))

abbrev pub close_found : Stack → Option (ℕ × ℕ) → Option (ℤ × Stack)
close_found st none = some (negsuc 0, st)
close_found st (some (i, a)) = close_at i a st (get_elem? st.sockets i)

-- sip_close
unfoldable pub sip_close : ℤ → Stack → Option (ℤ × Stack)
unfolding get_socket
sip_close s st = do found ← get_socket s st; close_found st found
