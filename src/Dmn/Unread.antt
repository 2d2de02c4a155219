-- ===== src/Dmn/Unread.antt =====
-- What a message whose size is one below the size of its field `msgsz` makes the server do.
use android_device_samsung_a.Base.{
  suc, ◌≤◌, ◌≡◌, refl, true, false, some, ◌++◌, length, ltb, ==_refl, arith,
}
use android_device_samsung_a.Dmn.Pipe.{Bytes, size_of, msgrcv}
use android_device_samsung_a.Dmn.Framing.{waits-header, take-header, drop-header}
use android_device_samsung_a.Dmn.Server.{Abi, Answers, Server, dispatch, loc_api_server_proc}

module _ (abi : Abi) where
  -- With a buffer that can hold the field `msgsz`, and a first message in the pipe that says that
  -- its size is one less than that of the field, the server processes, with success, not a message
  -- that was sent but what was in the memory that `malloc` has given; the field is taken out of
  -- the pipe and what follows it stays there. `malloc` and the first read are to succeed.
  pub loc_api_server_proc-garbage :
      (answers : Answers) (s : Server) (header rest : Bytes)
      → abi.width ≤ abi.bufsz
      → answers.memory ≡ true
      → answers.reads.header_fails ≡ false
      → s.pipe ≡ header ++ rest
      → length header ≡ abi.width
      → suc (size_of header) ≡ abi.width
      → loc_api_server_proc abi answers s
        ≡ some (true, dispatch abi answers.garbage (record s { pipe = rest }))
  unfolding loc_api_server_proc msgrcv
  loc_api_server_proc-garbage answers s header rest room memory first p e size =
      let n = size_of header in
      let fits : ltb abi.bufsz n ≡ false = ground arith in
      let below : ltb n abi.width ≡ true = ground arith in
      rw
        (
          memory,
          first,
          p,
          waits-header abi.width header rest e,
          take-header abi.width header rest e,
          drop-header abi.width header rest e,
          e,
          ==_refl abi.width,
          fits,
          below,
          size,
          ==_refl abi.width,
        )
        refl
