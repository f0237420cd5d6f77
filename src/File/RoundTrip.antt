-- ===== src/File/RoundTrip.antt =====
-- file.cpp: what is written into a file is read back.
use threadx_cpp.Prelude.{
  ℕ, ◌+◌, ◌≤◌, ◌<◌, ◌≡◌, refl, String, none, some, ap, ◌∙◌, List, ◌++◌, length, take, drop,
  take-length, drop-take, length-take, length-append, returns, arith, true, le→leb,
}
use threadx_cpp.FileX.{success, named}
use threadx_cpp.File.{File, NotifyCallback, construct, register, seek, write, read}
use threadx_cpp.File.Native
use threadx_cpp.File.Native.{FileApi, FileLaws, NativeFile, OpenOption, overwritten}

-- What stands where data were written.
read_overwritten :
    (p : ℕ) (ds bytes : List ℕ)
    → p ≤ length bytes
    → (take (length ds) (drop p (overwritten p ds bytes)) ≡ ds)
      × (p + length ds ≤ length (overwritten p ds bytes))
read_overwritten p ds bytes h =
    let rest = drop (p + length ds) bytes in
    (
      ap (take (length ds)) (drop-take p bytes (ds ++ rest) h) ∙ take-length ds rest,
      omega (
        arith,
        length-append (take p bytes) (ds ++ rest),
        length-append ds rest,
        length-take p bytes h,
      ),
    )

module _ {K : Type 0} (api : FileApi K) (laws : FileLaws api) where
  open laws use {view, open_done, notify_kept, seek_done, write_done, read_done}

  -- In a file that is open, and for writing.
  abbrev IsWritable : K → ℕ → Type 0
  IsWritable k a = ((view k a).is_open ≡ true) × ((view k a).is_writable ≡ true)

  construct-IsWritable :
      (address : ℕ) (name : String) (media : ℕ) (callback : NotifyCallback K) (k : K)
      {self : File K} {k0 : K}
      → construct api address name media Native.write callback k ≡ returns (self, k0)
      → IsWritable k0 self.address
  unfolding construct register
  construct-IsWritable address name media none k made =
      ground (arith, open_done media address name k)
  construct-IsWritable address name media (some f) k made = ground (
    arith,
    open_done media address name k,
    notify_kept address address (api.file_open media address name (api.open_code Native.write) k).1,
  )

  -- In a file that is constructed for writing, on a media without faults: a seek to a place within
  -- it, a write of some data for which there is room, a seek back and a read of as many bytes into
  -- a buffer that holds them all succeed, and the bytes read are the data.
  pub write-read :
      (address : ℕ) (name : String) (media : ℕ) (callback : NotifyCallback K) (p : ℕ) (ds : List ℕ)
      (buffer_size : ℕ) (k0 k : K) {self : File K}
      → construct api address name media Native.write callback k0 ≡ returns (self, k)
      → p ≤ length (view k self.address).bytes
      → 0 < length ds
      → length ds ≤ (view k self.address).room
      → length ds ≤ buffer_size
      → (k1 : K) × (k2 : K) × (k3 : K) × (k4 : K) × (seek api self p k
          ≡ returns (named api.values success, k1))
        × (write api self ds k1 ≡ returns (named api.values success, k2))
        × (seek api self p k2 ≡ returns (named api.values success, k3))
        × (read api self buffer_size (length ds) k3
            ≡ returns (((named api.values success, length ds), ds), k4))
  unfolding seek write read
  write-read address name media callback p ds buffer_size k0 k {self} made within pos room_left
        holds =
      let (is_open, is_writable) = construct-IsWritable address name media callback k0 made in
      let a = self.address in
      let k1 = (api.extended_seek a p k).1 in
      let k2 = (api.write a ds k1).1 in
      let k3 = (api.extended_seek a p k2).1 in
      let service = api.read a (length ds) k3 in
      let (code1, at1) = seek_done a p k is_open within in
      let open1 : (view k1 a).is_open ≡ true = ap (λ (v : NativeFile). v.is_open) at1 ∙ is_open in
      let writable1 : (view k1 a).is_writable ≡ true =
        ap (λ (v : NativeFile). v.is_writable) at1 ∙ is_writable in
      let room1 = ap (λ (v : NativeFile). v.room) at1 in
      let (code2, open2, written) = write_done a ds k1 open1 writable1 (omega (arith, room1)) in
      let bytes2 : (view k2 a).bytes ≡ overwritten p ds (view k a).bytes =
        written ∙ ap (λ (v : NativeFile). overwritten v.position ds v.bytes) at1 in
      let (stands, long) = read_overwritten p ds (view k a).bytes within in
      let length2 = ap length bytes2 in
      let (code3, at3) = seek_done a p k2 open2 (omega (arith, length2, long)) in
      let open3 : (view k3 a).is_open ≡ true = ap (λ (v : NativeFile). v.is_open) at3 ∙ open2 in
      let position3 = ap (λ (v : NativeFile). v.position) at3 in
      let length3 = ap (λ (v : NativeFile). length v.bytes) at3 in
      let (code4, got) =
        read_done a (length ds) k3 open3 pos (omega (arith, position3, length3, length2, long)) in
      let read_back : service.1 ≡ ds =
        got
        ∙ ap (λ (v : NativeFile). take (length ds) (drop v.position v.bytes)) at3
        ∙ ap (λ bytes. take (length ds) (drop p bytes)) bytes2
        ∙ stands in
      (
        k1,
        k2,
        k3,
        service.2,
        ap (λ n. returns (record { underlying = n }, k1)) code1,
        ap (λ n. returns (record { underlying = n }, k2)) code2,
        ap (λ n. returns (record { underlying = n }, k3)) code3,
        rw (le→leb (length ds) buffer_size holds, code4, read_back) refl,
      )
