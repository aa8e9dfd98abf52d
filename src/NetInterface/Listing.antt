-- ===== src/NetInterface/Listing.antt =====
-- util/netinterface.cpp on Windows, behind the loop that sizes the buffer: the objects that are made
-- of the adapters, and the result. What the code uses of Qt without declaring it (the conversion
-- of a sockaddr, the test for version 4, the table of netmasks, the text of a hardware address) and the
-- offsets of two members are parameters. The printing of the adapters is left out.
use libgscale.Prelude.{
  ℕ, ◌+◌, ◌/◌, ◌%◌, Bool, ◌&&◌, not, Option, none, some, List, [], ◌∷◌, ◌++◌, length, leb, ◌==◌,
  if◌then◌else◌, keep_if,
}
use libgscale.Words.{Bytes}
use libgscale.Exception.{Exception, Host, exception_of_cstring, append}
use libgscale.NetInterface.{NetInterface}
use libgscale.NetInterface.Adapters.{Adapters, running, answered, adapters}

-- IP_ADAPTER_ADDRESSES, as far as the loop reads it. The lists behind FirstUnicastAddress and
-- FirstPrefix are lists: of the sockaddrs, and of the prefix lengths.
pub record AdapterAddresses : Type 0 where
  pub size : ℕ
  pub adapter_name : Bytes
  pub friendly_name : Bytes
  pub if_index : ℕ
  pub ipv6_if_index : ℕ
  pub oper_status : ℕ
  pub flags : ℕ
  pub physical_address : Bytes
  pub first_unicast_address : List Bytes
  pub first_prefix : List ℕ

pub data Flag : Type 0 where
  can_broadcast is_up is_running can_multicast is_loop_back : Flag

-- An address with the netmask or the prefix length that it was given, if any.
pub data Setting : Type 0 where
  plain : Setting
  netmask : ℕ → Setting
  prefix_length : ℕ → Setting

-- QNetworkInterfacePrivate, as far as the loop writes it.
pub record Interface : Type 0 where
  pub index : ℕ
  pub flags : List Flag
  pub name : Bytes
  pub friendly_name : Bytes
  pub hardware_address : Bytes
  pub address_entries : List (Bytes × Setting)

-- The two tests for the index; `at_v6` is offsetof(IP_ADAPTER_ADDRESSES, Ipv6IfIndex).
unfoldable pub interface_index : ℕ → AdapterAddresses → ℕ
interface_index at_v6 a =
    if leb at_v6 a.size && not (a.ipv6_if_index == 0)
    then a.ipv6_if_index
    else if not (a.if_index == 0)
    then a.if_index
    else 0

-- The flags: IfOperStatusUp is 1, and IP_ADAPTER_NO_MULTICAST the bit 16.
unfoldable pub interface_flags : AdapterAddresses → List Flag
interface_flags a =
    can_broadcast
    ∷ ((if a.oper_status == 1 then is_up ∷ is_running ∷ [] else [])
        ++ (if a.flags / 16 % 2 == 0 then can_multicast ∷ [] else [])
        ++ (if length a.physical_address == 0 then is_loop_back ∷ [] else []))

-- `pprefix = pprefix->Next ? pprefix->Next : pprefix`
abbrev pub next_prefix : ℕ → List ℕ → List ℕ
next_prefix p [] = p ∷ []
next_prefix p (q ∷ ps) = q ∷ ps

module _ (address_from_sockaddr : Bytes → Bytes) (is_v4 : Bytes → Bool) (ipv4netmasks : Bytes → ℕ)
    (make_hw_address : Bytes → Bytes) where
  -- What an address is set to where `pprefix` is the start of a list.
  abbrev pub set_entry : Option ℕ → Bytes → Bytes × Setting
  set_entry none ip = (ip, plain)
  set_entry (some p) ip = (ip, if is_v4 ip then netmask (ipv4netmasks ip) else prefix_length p)

  -- The loop over the unicast addresses, with the prefixes from `pprefix` on.
  unfoldable pub address_loop : List ℕ → List Bytes → List (Bytes × Setting)
  address_loop ps [] = []
  address_loop [] (a ∷ addrs) = set_entry none (address_from_sockaddr a) ∷ address_loop [] addrs
  address_loop (p ∷ ps) (a ∷ addrs) =
      set_entry (some p) (address_from_sockaddr a) ∷ address_loop (next_prefix p ps) addrs

  -- The body of the loop over the adapters up to `delete`; `at_prefix` is the offset of FirstPrefix.
  unfoldable pub read_adapter : ℕ → ℕ → AdapterAddresses → Interface
  unfolding interface_index interface_flags address_loop
  read_adapter at_v6 at_prefix a = record {
    index = interface_index at_v6 a;
    flags = interface_flags a;
    name = a.adapter_name;
    friendly_name = a.friendly_name;
    hardware_address =
        if length a.physical_address == 0 then [] else make_hw_address a.physical_address;
    address_entries =
        address_loop (if leb at_prefix a.size then a.first_prefix else []) a.first_unicast_address;
  }

-- The objects that the loop makes, by number: the list `interfaces` of pointers to them, and those
-- that were not deleted.
pub record Listing : Type 0 where
  pub made : ℕ
  pub interfaces : List ℕ
  pub live : List (ℕ × Interface)

-- `new`, then the pointer is appended, the object filled, and at the end `delete`.
unfoldable pub list_adapter : Interface → Listing → Listing
list_adapter i l =
    let allocated : Listing = record {
      made = l.made + 1;
      interfaces = l.interfaces ++ l.made ∷ [];
      live = l.live ++ (l.made, i) ∷ [];
    } in
    record allocated { live = keep_if (λ e. not (e.0 == l.made)) allocated.live }

unfoldable pub list_adapters :
    (AdapterAddresses → Interface) → List AdapterAddresses → Listing → Listing
list_adapters read [] l = l
list_adapters read (a ∷ addrs) l = list_adapters read addrs (list_adapter (read a) l)

-- How NetInterface::all ends on Windows: by the exception of a call that failed, in undefined
-- behaviour, with the objects of the loop and the result, or not within the fuel.
pub data Ended : Type 0 where
  undefined not_ended : Ended
  refused : Exception → Ended
  returned : Listing → List NetInterface → Ended

-- `except << lpMsgBuf`, where FormatMessage gives a text, and `throw except`.
abbrev pub refusal : Option Bytes → Option Exception → Ended
refusal message none = undefined
refusal none (some e) = refused e
refusal (some text) (some e) = refused (append e text)

-- Behind the first loop; `adapters_in` is the list that the call left in a buffer of a size. The
-- exception is made with NULL for its message. The vector `result` is as it was made.
unfoldable pub after_query :
    Host
    → Bytes
    → (ℕ → Option Bytes)
    → (AdapterAddresses → Interface)
    → (ℕ → List AdapterAddresses)
    → Adapters
    → Ended
after_query host file format_message read adapters_in Adapters.undefined = undefined
after_query host file format_message read adapters_in running = not_ended
after_query host file format_message read adapters_in (answered status size len) =
    if not (status == 0)
    then refusal (format_message status) (exception_of_cstring host none status (some file) 119)
    else returned
        (list_adapters read (adapters_in size) (record { made = 0; interfaces = []; live = [] })) []

-- NetInterface::all
unfoldable pub all_windows :
    (ℕ → Bool)
    → (ℕ → ℕ × ℕ)
    → Host
    → Bytes
    → (ℕ → Option Bytes)
    → (AdapterAddresses → Interface)
    → (ℕ → List AdapterAddresses)
    → ℕ
    → Ended
unfolding after_query
all_windows malloc get_adapters_addresses host file format_message read adapters_in fuel =
    after_query host file format_message read adapters_in
      (adapters malloc get_adapters_addresses fuel)
