-- ===== src/Lib.antt =====
-- Verification of the C programs of the repository MakeDown_File. Five of them are modelled.
--
-- 1. The OpenSSL provider for Windows CNG, in ssl学习/provider学习/cng-provider-test. The same code
--    stands in ssl学习/provider学习/cng_provider_dll. The core of OpenSSL loads the provider, opens a
--    system store by a URI, is handed its certificates and references to its private keys, makes key
--    objects from the references, and signs with them.
--    - Cng/World.antt: the heap, the handles in the key objects, and the calls made of Windows and of
--      the core. Cng/Env.antt: the answers of those libraries, as parameters.
--    - Cng/KeyMgmt.antt: keymgmt/cng_keymgmt_functions.c, one definition for each function, under its
--      name; rsaModulusSizeToStrengthBits is `rsa_modulus_size_to_strength_bits`. The public branch
--      of cng_keymgmt_export is `export_public`. Behind it: KeyMgmt/Strength, Reverse, Export, Success and
--      Duplicate.
--    - Cng/Store.antt: store/cng_store_functions.c. T_CNG_STORE_CTX is `StoreCtx`; the struct is
--      returned by each operation, the key object in it is shared by its address. Behind it:
--      Store/Keys, Steps, Drain, Source, Open, Contents, Delivery and Unwritten.
--    - Cng/Signature.antt: signature/cng_signature_functions.c. T_CNG_SIGNATURE_CTX is `SigCtx`.
--      Behind it: Signature/Final, Session, Success and Duplicate.
--    - Cng/Provider.antt: cng_provider.c. Behind it: Provider/Lifetime.
-- 2. The Unix socket server and client of c c++/域套接字.c.
--    - Domain/World.antt: open descriptors, errno, and the system calls made; the kernel's answers are
--      parameters. Domain/Wrappers.antt: the small wrappers. Domain/Sockets.antt: the two functions
--      that make a socket. Domain/Transfer.antt: send_data, recv_data and the client's loop.
--      Domain/Server.antt: epoll_init, epoll_listen and the server's main. Behind them:
--      Wrappers/Errno, Sockets/Descriptors, Transfer/Total and Server/Clients.
-- 3. The test program for SKF tokens, ssl学习/国密SKF学习/gmusbkeytest/main.c.
--    - Skf/World.antt: the heap, the static table, and the calls made of the token; the token's
--      answers are parameters. Skf/Api.antt: GetSKFAPI. Skf/Names.antt: the loops over a block of
--      names, and print_strings. Skf/Enumerate.antt: GetDevHandles, GetAppHandles,
--      GetContainerHandles and GetCertificateToX509. Skf/Copies.antt: GetContainerNames.
--      Skf/Main.antt: the enumeration of main. Skf/Keys.antt: RasKeyPairTest, KeyPairTest and
--      SM2KeyPairTest, where `step` is a call of the token followed by the return of its status if that
--      is not 0. Skf/Keys/Import.antt: ImportSM2KeyPair_Test, ImportSessionKey_Test and main as a whole.
--      Behind them: Api/Loading, Names/Encoded, Names/Printed, Enumerate/Applications,
--      Enumerate/Opened, Copies/Copied, Keys/Checked, Keys/Leak and Main/Unset.
-- 4. The TLS client ssl学习/Ssl_C_Demo/TASSL_GM_Client/tasslclient.c.
--    - Netc/World.antt: the heap and the calls of BIOs; the answers of OpenSSL and of the two
--      conversions to GBK are parameters. Netc/Text.antt: NETC_SSL_X509_ASN1_STRING_print,
--      NETC_ChangeEndianOrder and NETC_SSL_X509ExtratTextByNID. Netc/Issuer.antt:
--      NETC_Get_SSL_ServiceCertIssuerName. Behind them: Text/Endian, Print, Index, Put, Kept,
--      Convert, Extract and Bounds.
--    - Tls/World.antt: the contexts, connections, sockets, certificates and locks that the client
--      has, and the calls that it makes. Tls/Connect.antt: Cert_SSL_AddCACert and create_ssl_conect.
--      Tls/Client.antt: main up to its first undefined access. Behind them: Connect/Rounds and
--      Connect/Settled.
-- 5. The key methods of ssl学习/国密SKF学习/tasslukey/main.c, with which OpenSSL's SM2 uses a token.
--    - Ukey/World.antt: the objects on the heap, the open devices, applications and containers, and the
--      calls made. Ukey/Session.antt: what ukey_sign and ukey_export share. Ukey/Method.antt: these two,
--      with their label `error` as `sign_error` and `export_error`. Behind them: Method/Triple, Label,
--      Clean and Exported. Ukey/Options.antt, with Given behind it: the options of main.
--
-- Shared: Prelude.antt passes on the library's names and has lists over the native numbers. Run.antt
-- has the runs of C code: a value with the state after it, a fault for undefined behaviour (a null
-- dereference, a double free, a read behind a block), or a run cut off by its fuel. Tests.antt and its
-- modules apply the theorems to concrete inputs.
--
-- How the code is modelled. A state is a record that each operation takes and returns. A call of a
-- library, of the kernel or of a token is recorded in the state, and its answer is a parameter of the
-- model: a function of the calls made before, so that it may differ each time. What the proofs ask of
-- an answer is a hypothesis with a name: Enumerates, AcquiresBy, WritesHandle, AcceptsKeys,
-- OpensStores, FullBlobs, Exports, Reopens and Supports for Windows and the core, SendsSome,
-- RecvsAtMost, EndsNever and SendsText for the kernel and the clients, OpensApplications and HasFunctions for the token,
-- MemoryBio, Lists and Settles for OpenSSL under the TLS client, TellsApart for
-- strcasecmp, AnswersApi for GetSKFAPI under the key methods.
-- `malloc` hands out addresses in order and may refuse each one; `free` of a block that is not live
-- is a fault. A list that the code has in a buffer is the list of
-- its bytes, and a read or a store out of bounds is a fault. The digests
-- of EVP_MD_fetch, which the code never frees, are counted. Local handles that a call did not
-- write are `none`, and their use is a fault.
--
-- Fuel. The search for a private key recurses once for each certificate that is skipped, and a store
-- is read in one round for each object: fuel above the number of certificates, and above the number of
-- all objects and one, is enough. send_data and recv_data take one round for each call of the kernel,
-- of which each moves at least one byte: fuel above the length is enough. A walk over a block of names
-- takes at most one round for each byte. The search for a name's last entry takes one round for each
-- entry and one more. A handshake is tried at most 201 times in a round; the rounds go on as long as the
-- socket asks for another, so their fuel is the number of handshakes after which it stops asking, and one. The server's loop has no end, so no fuel is enough for it.
--
-- Not modelled. The log lines and all other output. The constant tables of the provider, and the
-- copy under cng_provider_dll. ssl学习/provider学习/cng-provider-test/legacy_provider.c, which is
-- OpenSSL's. In gmusbkeytest, saveBinaryDataToFile and get_field_from_cert, which only write and
-- print. In tasslclient, init and create_tcp_connect, and what main does behind its first undefined
-- access. In tasslukey/main.c, the other key methods, the client ukey_sslcli and what main does behind its
-- options; GetSKFAPI is the one of gmusbkeytest. The vendor's SKFAPI.h. The other TLS
-- programs under ssl学习/Ssl_C_Demo and the test programs of the provider, which are sequences of
-- OpenSSL calls. The Python scripts and the notes. The code of a thread other than the caller's: none of the modelled
-- code starts one.
pub mod Prelude
pub mod Run
pub mod Cng
pub mod Domain
pub mod Skf
pub mod Netc
pub mod Tls
pub mod Ukey
pub mod Tests
